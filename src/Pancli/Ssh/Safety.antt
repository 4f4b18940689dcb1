-- ===== src/Pancli/Ssh/Safety.antt =====
-- When getSSHConnection of pkg/pancli/pancli_ssh.go panics, and to whom it hands a connection.
use panfs_container_storage.Base.{
  ◌≡◌, ◌≢◌, refl, ap, ◌↔◌, inl, inr, String, true, none, some, arith, Option-cases,
}
use panfs_container_storage.Base.GoMap.{lookup, insert, GoMap, find}
use panfs_container_storage.Base.Results.{Result, ok, err, panic}
use panfs_container_storage.Utils.Context.Secret
use panfs_container_storage.Pancli.Ssh.{
  Ssh, Clients, attempt, remember, connect, get_ssh_connection,
}
use panfs_container_storage.Pancli.Ssh.Cache.{
  IsHealthy, get_ssh_connection_nil, get_ssh_connection_alive, get_ssh_connection-Stores,
}

module _ {Client Signer : Type 0} (ssh : Ssh Client Signer) where
  remember-ne-panic :
      (realm : String) (result : Result Client) (clients : Clients Client)
      → result ≢ panic
      → (remember ssh realm result clients).0 ≢ panic
  unfolding remember
  remember-ne-panic realm (ok c) clients h = cc
  remember-ne-panic realm (err e) clients h = cc
  remember-ne-panic realm panic clients h = λ _. h refl

  -- A call panics exactly when the cache has a nil pointer for its realm, unless the SSH library
  -- panics in an attempt to connect.
  get_ssh_connection-panic_iff :
      (secrets : GoMap) (clients : Clients Client)
      → ((realm : String) → attempt ssh realm secrets ≢ panic)
      → ((get_ssh_connection ssh secrets clients).0 ≡ panic) ↔ (
          (realm : String) × (find Secret.realm_address secrets ≡ some realm)
          × (lookup realm clients ≡ some none))
  unfolding get_ssh_connection connect
  get_ssh_connection-panic_iff secrets clients sound = (
    λ p. elim (Option-cases (find Secret.realm_address secrets)) [
      | inl e ↦ absurd (ground arith)
      | inr (realm, e) ↦ elim (Option-cases (lookup realm clients)) [
        | inl free ↦ absurd (
            ground
              (arith, remember-ne-panic realm (attempt ssh realm secrets) clients (sound realm)))
        | inr (none, nil) ↦ (realm, e, nil)
        | inr (some c, kept) ↦ absurd (
            ground (
              arith,
              remember-ne-panic realm (attempt ssh realm secrets) clients (sound realm),
              remember-ne-panic realm (attempt ssh realm secrets) (insert realm none clients)
                  (sound realm),
            ))
      ]
    ],
    λ (realm, e, nil).
        ap (λ (x : Result Client × Clients Client). x.0)
          (get_ssh_connection_nil ssh secrets realm clients e nil),
  )

  -- With no nil pointer in the cache a call does not panic, if a new connection does not.
  get_ssh_connection-ne-panic :
      (secrets : GoMap) (clients : Clients Client)
      → IsHealthy ssh clients
      → ((realm : String) → attempt ssh realm secrets ≢ panic)
      → (get_ssh_connection ssh secrets clients).0 ≢ panic
  get_ssh_connection-ne-panic secrets clients healthy sound p =
      let (realm, _, nil) = (get_ssh_connection-panic_iff secrets clients sound).0 p in
      healthy realm nil

  -- A connection that one call obtained is handed to every later call for the realm while it
  -- answers, whatever user, password or key that call carries: they are not looked at.
  pub get_ssh_connection-shared :
      (secrets : GoMap) (realm : String) (clients new : Clients Client) (client : Client)
      → find Secret.realm_address secrets ≡ some realm
      → get_ssh_connection ssh secrets clients ≡ (ok client, new)
      → (later : Ssh Client Signer) (other : GoMap) → later.answers_ping client ≡ true
      → find Secret.realm_address other ≡ some realm
      → get_ssh_connection later other new ≡ (ok client, new)
  get_ssh_connection-shared secrets realm clients new client r h later other alive same =
      let (here, _) = get_ssh_connection-Stores ssh secrets realm clients new client r h in
      get_ssh_connection_alive later other realm new client same here alive
