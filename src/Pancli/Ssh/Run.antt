-- ===== src/Pancli/Ssh/Run.antt =====
-- RunCommand of pkg/pancli/pancli_ssh.go: what an output that it returns has passed.
use panfs_container_storage.Base.{String, ◌≡◌, refl, inl, inr, none, List, arith, Option-cases}
use panfs_container_storage.Base.Texts.{codes, join}
use panfs_container_storage.Base.GoMap.{GoMap}
use panfs_container_storage.Base.Results.{ok}
use panfs_container_storage.Pancli.Errors.{parse_error_string}
use panfs_container_storage.Pancli.Errors.Classify.{Succeeds, parse_error_string-classes}
use panfs_container_storage.Pancli.Client.Laws.{Result-cases}
use panfs_container_storage.Pancli.Client.{SshRunner}
use panfs_container_storage.Pancli.Ssh.{
  Ssh, Clients, get_ssh_connection, run_in_session, run_command,
}

module _ {Client Signer : Type 0} (ssh : Ssh Client Signer) where
  -- SSHClient as an SSHRunner.
  abbrev pub ssh_runner : SshRunner
  ssh_runner = record { State = Clients Client; run_command = run_command ssh }

  run_in_session-ok :
      (client : Client) (cmd out : String)
      → run_in_session ssh client cmd ≡ ok out
      → (ssh.new_session client ≡ none)
        × (ssh.combined_output client cmd ≡ ok out)
        × (parse_error_string (codes out) ≡ none)
  unfolding run_in_session
  run_in_session-ok client cmd out h = elim (Option-cases (ssh.new_session client)) [
    | inr (e, n) ↦ absurd (ground arith)
    | inl n ↦ elim (Result-cases (ssh.combined_output client cmd)) [
      | inr (inl (e, c)) ↦ absurd (ground arith)
      | inr (inr c) ↦ absurd (ground arith)
      | inl (output, c) ↦ elim (Option-cases (parse_error_string (codes output))) [
        | inr (e, p) ↦ absurd (ground arith)
        | inl p ↦ let same : output ≡ out = ground arith in (n, rw (← same) c, rw (← same) p)
      ]
    ]
  ]

  -- An output that RunCommand returns is what the words of the command, joined by blanks, printed on
  -- the realm's connection, and it says that the command succeeded: it mentions "successfully" or
  -- "<volumes>", and neither "already exists" nor "no volume with name".
  pub run_command-Succeeds :
      (secrets : GoMap) (args : List String) (clients new : Clients Client) (out : String)
      → run_command ssh secrets args clients ≡ (ok out, new)
      → ((client : Client) × (get_ssh_connection ssh secrets clients ≡ (ok client, new))
          × (ssh.combined_output client (join args " ") ≡ ok out))
        × Succeeds (codes out)
  unfolding run_command
  run_command-Succeeds secrets args clients new out h =
      let found = get_ssh_connection ssh secrets clients in
      elim (Result-cases found.0) [
        | inr (inl (e, c)) ↦ absurd (ground arith)
        | inr (inr c) ↦ absurd (ground arith)
        | inl (client, c) ↦
            let (_, printed, silent) =
              run_in_session-ok client (join args " ") out (ground arith) in
            let (_, _, success) = parse_error_string-classes (codes out) in
            ((client, ground arith, printed), success.0 (rw silent refl))
      ]
