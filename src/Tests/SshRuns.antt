-- ===== src/Tests/SshRuns.antt =====
-- src/ssh.rs: host keys, channel loops and authentication on small inputs.
use cargo_remote.Prelude.{
  ◌&&◌, arith, Bytes, ok, ◌+◌, ℕ, ◌≡◌, refl, List, [], ◌∷◌, Text, codes, Bool, true, false, Option,
  none, some, text_eq, if◌then◌else◌, ltb, length, ◌↔◌, not, ◌==◌,
}
use cargo_remote.Ssh.Feeding.{Peer, Turn, recv, wait, returned, exec_send}
use cargo_remote.Ssh.Feeding.Orders.{InOrderNext, IsReturned, exec_send-InOrder, exec_send-Returned}
use cargo_remote.Ssh.HostKey.{
  Known, absent, matches, changed, plain_key, certificate, Handler, system_known_hosts,
  check_server_key, check_system, unknown_key,
}
use cargo_remote.Ssh.Accepts.{Trusted, check_server_key-Trusted}
use cargo_remote.Ssh.Exec.{
  Msg, stdout_msg, stderr_msg, exit_status, closed, other, Disk, Files, exec_download,
}
use cargo_remote.Ssh.Downloads.{Atomic, exec_download-Atomic}
use cargo_remote.Ssh.Auth.{Key, usable, passed_over, authenticated, authenticate}
use cargo_remote.Ssh.Signing.{NoSha1, OneTaken, authenticate-NoSha1}

abbrev handler : Handler
handler = record { known_hosts = codes "/k"; strict = false; interactive = true }

-- Key 1 has changed in the system's file.
abbrev known : ℕ → Text → Known
known key file =
    if text_eq file system_known_hosts then changed 3 else if key == 2 then matches else absent

changed_in_system_file :
    (check_server_key known handler (plain_key 1) (codes " Yes\n") true).accepted ≡ true
unfolding check_server_key check_system unknown_key
changed_in_system_file = refl

check_server_key-Trusted_example :
    (((check_server_key known handler (plain_key 1) (codes "y") true).accepted ≡ true)
      ↔ Trusted known handler 1 (codes "y"))
    × ((check_server_key known handler certificate (codes "y") true).accepted ≡ false)
check_server_key-Trusted_example = check_server_key-Trusted known handler 1 (codes "y") true

abbrev two_chunks : List Msg
two_chunks =
    stdout_msg (1 ∷ 2 ∷ [])
    ∷ exit_status 0
    ∷ other
    ∷ stdout_msg (3 ∷ [])
    ∷ closed
    ∷ stdout_msg (4 ∷ [])
    ∷ []

abbrev full_disk : Disk
full_disk = record {
  creates = true;
  writes = λ file d. not (ltb 2 (length file + length d));
  flushes = true;
  chmods = true;
  renames = true;
  removes = true;
  new_mode = 0o644;
}

abbrev old_files : Files
old_files = record { tmp = none; dest = some (9 ∷ [], 0o755) }

exec_download-Atomic_example :
    Atomic full_disk two_chunks old_files (exec_download full_disk two_chunks old_files)
exec_download-Atomic_example = exec_download-Atomic full_disk two_chunks old_files

abbrev rsa_key : Key
rsa_key = record { algorithm = codes "ssh-rsa"; public_part = 1 ∷ [] }

abbrev first_key : Key
first_key = record { algorithm = codes "ssh-ed25519"; public_part = 2 ∷ [] }

abbrev second_key : Key
second_key = record { algorithm = codes "ssh-ed25519"; public_part = 3 ∷ [] }

-- Of two keys of one algorithm the server takes the second one.
abbrev takes_second : Key → Option Text → Bool
takes_second key hash =
    text_eq key.algorithm (codes "ssh-ed25519") && text_eq key.public_part (3 ∷ [])

-- An RSA key in front keeps a key that the server would take from being tried.
rsa_first : (authenticate takes_second none (usable rsa_key ∷ usable second_key ∷ []) []).0 ≡ []
unfolding authenticate
rsa_first = refl

authenticate-NoSha1_example :
    NoSha1 takes_second none
      (authenticate takes_second none
        (passed_over ∷ [])
        (usable first_key ∷ usable second_key ∷ [])).0
    × (((authenticate takes_second none
            (passed_over ∷ [])
            (usable first_key ∷ usable second_key ∷ [])).1
          ≡ authenticated)
        ↔ OneTaken takes_second none
            (authenticate takes_second none
              (passed_over ∷ [])
              (usable first_key ∷ usable second_key ∷ [])).0)
authenticate-NoSha1_example =
    authenticate-NoSha1 takes_second none (passed_over ∷ [])
      (usable first_key ∷ usable second_key ∷ [])

-- A server that takes all that it is sent, and an order of the turns.
abbrev willing : Peer
willing = record { accepts = λ sent b. true; accepts_eof = λ sent. true; prints = λ before d. true }

abbrev two_items : List Bytes
two_items = (1 ∷ 2 ∷ []) ∷ (3 ∷ []) ∷ []

abbrev server_says : List Msg
server_says = stderr_msg (7 ∷ []) ∷ exit_status 0 ∷ closed ∷ []

abbrev some_turns : List Turn
some_turns = recv ∷ wait ∷ recv ∷ recv ∷ wait ∷ wait ∷ wait ∷ []

exec_send_run :
    exec_send willing two_items server_says some_turns
    ≡ returned (ok 0) (record {
      input = [];
      is_open = false;
      sent = 1 ∷ 2 ∷ 3 ∷ [];
      msgs = closed ∷ [];
      code = some 0;
      stderr = 7 ∷ [];
    })
unfolding exec_send
exec_send_run = refl

exec_send-InOrder_example :
    InOrderNext two_items server_says (exec_send willing two_items server_says some_turns)
exec_send-InOrder_example = exec_send-InOrder willing two_items server_says some_turns

exec_send-Returned_example : IsReturned (exec_send willing two_items server_says some_turns)
exec_send-Returned_example =
    exec_send-Returned willing two_items server_says some_turns (omega arith)
