-- ===== src/Eventhub/Answers.antt =====
-- Partition ids are taken only from the request's own successful response.
use iothub.Base.{Dict, ◌≡◌, List, some, Str, codes, lookup}
use iothub.Base.Int.{pos}
use iothub.Amqp.{Value, text, int32, strings, table, AmqpMessage, MessageProperties}

-- A response to the request `mid`: its status is 200, it names the request, and its value lists
-- the partition ids.
pub record Answers (mid : Str) (ids : List Str) (msg : AmqpMessage) : Type 0 where
  pub shown : Str
  pub status :
      lookup (codes "status-code") msg.application_properties ≡ some (int32 (pos 200) shown)
  pub properties : MessageProperties
  pub has_properties : msg.properties ≡ some properties
  pub correlation : properties.correlation_id ≡ some (text mid)
  pub entries : Dict Value
  pub is_map : msg.value ≡ table entries
  pub list_shown : Str
  pub listed : lookup (codes "partition_ids") entries ≡ some (strings ids list_shown)
