-- ===== src/Device/Mux.antt =====
-- iotdevice/mux.go, eventsMux and twinStateMux: the fan-out of incoming messages to subscriptions.
-- A subscription is named by a number, and `heap` holds its channel. A goroutine that could not
-- send at once waits with the subscriptions that its loop variable may still stand for: its own
-- and those behind it, because the closure shares the variable of the loop.
pub mod Ids
pub mod Delivery
pub mod Steps
pub mod Closing
pub mod LateSends
pub mod History
use iothub.Base.{
  ℕ, ◌+◌, Bool, true, false, List, [], ◌∷◌, ◌++◌, Option, none, some, Outcome, ok, panic, ◌>>=◌,
  Error, closed, ltb, ◌==◌, if◌then◌else◌, length,
}

-- EventSub: the channel's buffer, oldest first, whether it is closed, and `err`.
pub record Sub (A : Type 0) : Type 0 where
  pub buffer : List A
  pub is_closed : Bool
  pub err : Option Error

pub record Sender (A : Type 0) : Type 0 where
  pub targets : List ℕ
  pub msg : A

pub record Mux (A : Type 0) : Type 0 where
  pub subs : List ℕ
  pub heap : ℕ → Sub A
  pub next : ℕ
  pub senders : List (Sender A)
  pub done : Bool

-- The capacity of a subscription's channel.
abbrev pub capacity : ℕ
capacity = 10

-- The first occurrence goes, and the loop breaks.
unfoldable pub remove_first : ℕ → List ℕ → List ℕ
remove_first s [] = []
remove_first s (t ∷ ts) = let rest = remove_first s ts in if t == s then ts else t ∷ rest

module _ {A : Type 0} where
  abbrev pub fresh_sub : Sub A
  fresh_sub = record { buffer = []; is_closed = false; err = none }

  abbrev pub write : Mux A → ℕ → Sub A → Mux A
  write m s c = record m { heap = λ t. if t == s then c else m.heap t }

  abbrev pub push : Sub A → A → Sub A
  push c msg = record c { buffer = c.buffer ++ msg ∷ [] }

  -- One round of Dispatch at `s`, with `rest` still to come: send, or leave it to a goroutine.
  unfoldable pub offer : A → ℕ → List ℕ → Mux A → Mux A
  offer msg s rest m =
      if ltb (length (m.heap s).buffer) capacity
      then write m s (push (m.heap s) msg)
      else record m { senders = m.senders ++ record { targets = s ∷ rest; msg = msg } ∷ [] }

  unfoldable pub offer_all : A → List ℕ → Mux A → Mux A
  unfolding offer
  offer_all msg [] m = m
  offer_all msg (s ∷ rest) m = offer_all msg rest (offer msg s rest m)

  unfoldable pub dispatch : A → Mux A → Mux A
  unfolding offer_all
  dispatch msg m = offer_all msg m.subs m

  -- `sub`: a new channel at the end of the list.
  unfoldable pub subscribe : Mux A → Mux A × ℕ
  subscribe m = (
    record (write m m.next fresh_sub) { subs = m.subs ++ m.next ∷ []; next = m.next + 1 },
    m.next,
  )

  unfoldable pub unsub : ℕ → Mux A → Mux A
  unfolding remove_first
  unsub s m = record m { subs = remove_first s m.subs }

  -- `s.err = ErrClosed; close(s.ch)`; to close a closed channel panics.
  unfoldable pub close_sub : ℕ → Mux A → Outcome (Mux A)
  close_sub s m =
      if (m.heap s).is_closed
      then panic
      else ok (write m s (record (m.heap s) { is_closed = true; err = some closed }))

  unfoldable pub close_all : List ℕ → Mux A → Outcome (Mux A)
  unfolding close_sub
  close_all [] m = ok m
  close_all (s ∷ rest) m = do m' ← close_sub s m; close_all rest m'

  unfoldable pub close : Mux A → Outcome (Mux A)
  unfolding close_all
  close m = do m' ← close_all m.subs m; ok (record m' { subs = [] })

  -- A waiting goroutine sends to `s`, which panics on a closed channel.
  unfoldable pub send_late : ℕ → A → Mux A → Outcome (Mux A)
  send_late s msg m = if (m.heap s).is_closed then panic else ok (write m s (push (m.heap s) msg))

  -- twinStateMux.Dispatch: a payload that does not unmarshal is logged and dropped.
  unfoldable pub twin_dispatch : (List ℕ → Option A) → List ℕ → Mux A → Mux A
  unfolding dispatch
  twin_dispatch unmarshal b m = elim (unmarshal b) [ none ↦ m | some v ↦ dispatch v m ]
