-- ===== src/Program/Service/Pairing.antt =====
-- From the service program to the device client: the printed connection string.
use iothub.Service.{Device}
use iothub.Service.Rest.Registry as Registry
use iothub.Program.Service.Commands as Commands
