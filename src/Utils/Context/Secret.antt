-- ===== src/Utils/Context/Secret.antt =====
-- RealmConnectionContext of pkg/utils/context.go: the keys of the secrets.
use panfs_container_storage.Base.{String}

abbrev pub realm_address : String
realm_address = "realm_ip"

abbrev pub username : String
username = "user"

abbrev pub password : String
password = "password"

abbrev pub private_key : String
private_key = "private_key"

abbrev pub private_key_passphrase : String
private_key_passphrase = "private_key_passphrase"

abbrev pub kmip_config_data : String
kmip_config_data = "kmip_config_data"
