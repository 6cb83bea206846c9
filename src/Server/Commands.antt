-- ===== src/Server/Commands.antt =====
-- server/command.go: the commands that the servers of a cluster agree on, and their effect on a
-- registry. `now` is the instant that `time.Now` reads when a command is made.
use skydns.Shared.{ℕ, ◌+◌, ◌*◌, Text, txt}
use skydns.Msg.{Service, Callback, second}
use skydns.Registry.Tree.{Result}
use skydns.Registry.{Registry}
use skydns.Registry

pub data Command : Type 0 where
  add_service : Service → Command
  update_ttl : Text → ℕ → ℕ → Command
  remove_service : Text → Command
  add_callback : Service → Callback → Command

-- `getExpirationTime(ttl)`
abbrev pub get_expiration_time : ℕ → ℕ → ℕ
get_expiration_time now ttl = now + ttl * second

abbrev pub new_add_service_command : ℕ → Service → Command
new_add_service_command now s = add_service (record s { expires = get_expiration_time now s.ttl })

abbrev pub new_update_ttl_command : ℕ → Text → ℕ → Command
new_update_ttl_command now uuid ttl = update_ttl uuid ttl (get_expiration_time now ttl)

abbrev pub new_remove_service_command : Text → Command
new_remove_service_command uuid = remove_service uuid

abbrev pub new_add_callback_command : Service → Callback → Command
new_add_callback_command s c = add_callback s c

abbrev pub command_name : Command → Text
command_name (add_service s) = txt "add-service"
command_name (update_ttl uuid ttl expires) = txt "update-ttl"
command_name (remove_service uuid) = txt "remove-service"
command_name (add_callback s c) = txt "add-callback"

-- `c.Apply(server)`: the error, and the registry. The other result, the command's own service or
-- UUID, is used by no caller.
abbrev pub apply : Command → Registry → Result (Unit {0}) × Registry
apply (add_service s) r = Registry.add r s
apply (update_ttl uuid ttl expires) r = Registry.update_ttl r uuid ttl expires
apply (remove_service uuid) r = Registry.remove_uuid r uuid
apply (add_callback s c) r = Registry.add_callback r s c
