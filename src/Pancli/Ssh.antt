-- ===== src/Pancli/Ssh.antt =====
-- SSHClient of pkg/pancli/pancli_ssh.go: the cache of SSH connections, one for a realm's address,
-- and RunCommand. The library golang.org/x/crypto/ssh is a parameter. The mutex makes each call of
-- getSSHConnection one step; the dial's timeout and the host key callback are not modelled.
pub mod Cache
pub mod Run
pub mod Safety
pub mod Words
pub mod Dialled
use Prim.Native.String
use panfs_container_storage.Base.{
  String, ◌<>◌, Bool, true, false, ◌&&◌, Option, none, some, List, [], ◌∷◌, ◌++◌, str_eq,
  if◌then◌else◌,
}
use panfs_container_storage.Base.Texts.{codes, join}
use panfs_container_storage.Base.GoMap.{EntriesOf, lookup, insert, GoMap, find, value_at}
use panfs_container_storage.Base.Results.{
  Error, plain, Result, ok, err, panic, Exec, lift, fail, ◌>>=◌,
}
use panfs_container_storage.Utils.Context.Secret
use panfs_container_storage.Pancli.Errors.{parse_error_string}

-- ssh.AuthMethod
pub data Auth (Signer : Type 0) : Type 0 where
  public_keys : Signer → Auth Signer
  password : String → Auth Signer
  keyboard_interactive : String → Auth Signer

-- ssh.ClientConfig
pub record Config (Signer : Type 0) : Type 0 where
  pub user : String
  pub auth : List (Auth Signer)

-- What the SSH library and the realms answer during one call.
pub record Ssh (Client Signer : Type 0) : Type 0 where
  -- SendRequest("ping", …) comes back with no error
  pub answers_ping : Client → Bool
  pub parse_private_key : String → Result Signer
  pub parse_private_key_with_passphrase : String → String → Result Signer
  pub dial : String → Config Signer → Result Client
  -- NewSession, and CombinedOutput of a command in it
  pub new_session : Client → Option Error
  pub combined_output : Client → String → Result String

-- SSHClient.clients; a nil pointer is `none`.
abbrev pub Clients : Type 0 → Type 0
Clients Client = EntriesOf (Option Client)

module _ {Client Signer : Type 0} (ssh : Ssh Client Signer) where
  -- The authentication with the private key, if there is one.
  unfoldable pub key_auth : String → String → Result (List (Auth Signer))
  key_auth private_key passphrase =
      if str_eq private_key ""
      then ok []
      else elim (if str_eq passphrase ""
          then ssh.parse_private_key private_key
          else ssh.parse_private_key_with_passphrase private_key passphrase) [
            | ok signer ↦ ok (public_keys signer ∷ [])
            | err e ↦ err (
                plain (
                  codes "failed to parse SSH private key: "
                  ++ e.message
                  ++ codes ", check passphrase for the key"))
            | panic ↦ panic
          ]

  unfoldable pub password_auth : String → List (Auth Signer)
  password_auth secret =
      if str_eq secret "" then [] else password secret ∷ keyboard_interactive secret ∷ []

  -- The part of getSSHConnection behind the cache: the credentials and the dial.
  unfoldable pub attempt : String → GoMap → Result Client
  unfolding find value_at key_auth password_auth
  attempt realm secrets = elim (find Secret.username secrets) [
    | none ↦ err (plain (codes "missing user in secrets"))
    | some user ↦
        let secret = value_at Secret.password secrets in
        let private_key = value_at Secret.private_key secrets in
        if str_eq secret "" && str_eq private_key ""
        then err (
            plain (
              codes
                "no valid authentication method provided in secrets, either password or public key is required"))
        else elim (key_auth private_key (value_at Secret.private_key_passphrase secrets)) [
          | err e ↦ err e
          | panic ↦ panic
          | ok auth ↦
              ssh.dial (realm <> ":22")
                (record { user = user; auth = auth ++ password_auth secret })
        ]
  ]

  -- A new connection goes into the cache.
  unfoldable pub remember : String → Result Client → Clients Client → Result Client × Clients Client
  unfolding insert
  remember realm (ok client) clients = (ok client, insert realm (some client) clients)
  remember realm (err e) clients = (err e, clients)
  remember realm panic clients = (panic, clients)

  unfoldable pub connect : String → GoMap → Exec (Clients Client) Client
  unfolding attempt remember
  connect realm secrets clients = remember realm (attempt realm secrets) clients

  -- getSSHConnection. A nil pointer in the cache is used like a client, and that panics.
  unfoldable pub get_ssh_connection : GoMap → Exec (Clients Client) Client
  unfolding lookup connect
  get_ssh_connection secrets clients = elim (find Secret.realm_address secrets) [
    | none ↦ (err (plain (codes "missing realm_ip in secrets")), clients)
    | some realm ↦ elim (lookup realm clients) [
      | none ↦ connect realm secrets clients
      | some none ↦ (panic, clients)
      | some (some client) ↦
          if ssh.answers_ping client
          then (ok client, clients)
          else connect realm secrets (insert realm none clients)
    ]
  ]

  unfoldable pub run_in_session : Client → String → Result String
  run_in_session client cmd = elim (ssh.new_session client) [
    | some e ↦ err e
    | none ↦ elim (ssh.combined_output client cmd) [
      | err e ↦ err e
      | panic ↦ panic
      | ok output ↦ elim (parse_error_string (codes output)) [ some e ↦ err e | none ↦ ok output ]
    ]
  ]

  -- SSHClient.RunCommand
  unfoldable pub run_command : GoMap → List String → Exec (Clients Client) String
  unfolding get_ssh_connection run_in_session join
  run_command secrets args = do
    client ← get_ssh_connection secrets
    lift (run_in_session client (join args " "))
