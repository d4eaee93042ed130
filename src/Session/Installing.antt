-- ===== src/Session/Installing.antt =====
-- src/runner.rs: `ensure_agent` and `bootstrap_agent`.
use cargo_remote.Prelude.{
  ◌++◌, Text, codes, Bool, ◌&&◌, Option, none, some, ok, ensure, if◌then◌else◌, ◌==◌, text_eq,
}
use cargo_remote.Prelude.Words.{trim}
use cargo_remote.Shell.{quote_remote_path}
use cargo_remote.Runner.{Context, trim_slashes}
use cargo_remote.Session.{
  upload_failed, World, Machine, Run, binary, display_safe, word_at, require_ssh, exec_capture,
  exec_send, ◌>>=◌, ◌>>◌, pure, lift,
}

-- The name that `uname` has for the local system.
unfoldable pub uname_os : Text → Text
uname_os os =
    if text_eq os (codes "linux")
    then codes "Linux"
    else if text_eq os (codes "macos")
    then codes "Darwin"
    else os

-- `{remote_base}/.cargo-remote`, quoted, and the agent in it
unfoldable pub agent_dir_q : Context → Text
agent_dir_q ctx = quote_remote_path (trim_slashes ctx.remote_base ++ codes "/.cargo-remote")

unfoldable pub agent_path_q : Context → Text
unfolding agent_dir_q
agent_path_q ctx = agent_dir_q ctx ++ codes "/agent"

unfoldable pub probe_cmd : Context → Text
unfolding agent_path_q
probe_cmd ctx =
    codes "test -x "
    ++ (agent_path_q ctx
        ++ (codes " && " ++ (agent_path_q ctx ++ codes " __agent --version 2>/dev/null || true")))

unfoldable pub staging_q : Machine → Context → Text
unfolding agent_path_q
staging_q M ctx = agent_path_q ctx ++ (codes ".tmp." ++ M.staging_tag)

unfoldable pub install_cmd : Machine → Context → Text
unfolding agent_dir_q agent_path_q staging_q
install_cmd M ctx =
    codes "mkdir -p "
    ++ (agent_dir_q ctx
        ++ (codes " && chmod 700 "
            ++ (agent_dir_q ctx
                ++ (codes " && cat > "
                    ++ (staging_q M ctx
                        ++ (codes " && chmod 755 "
                            ++ (staging_q M ctx
                                ++ (codes " && mv -f "
                                    ++ (staging_q M ctx ++ (codes " " ++ agent_path_q ctx))))))))))

unfoldable pub verify_cmd : Context → Text
unfolding agent_path_q
verify_cmd ctx = agent_path_q ctx ++ codes " __agent --version 2>/dev/null"

module _ (W : World) (M : Machine) (ctx : Context) where
  -- The answer of `uname -sm` names the local platform.
  unfoldable pub same_platform : Text → Bool
  unfolding uname_os display_safe word_at
  same_platform out =
      let uname = display_safe out in
      text_eq (word_at 0 uname) (uname_os M.os) && text_eq (word_at 1 uname) M.arch

  -- The upload of the own binary, and whether what is installed then answers as it should.
  unfoldable pub upload_agent : Text → Run (Option Text)
  unfolding exec_send exec_capture install_cmd verify_cmd
  upload_agent want = do
    bytes ← lift M.own_binary
    code ← exec_send W (install_cmd M ctx) (binary bytes)
    lift (ensure (code == 0) (upload_failed code))
    (_, out) ← exec_capture W (verify_cmd ctx)
    pure (if text_eq (trim (M.lossy out)) want then some (agent_path_q ctx) else none)

  unfoldable pub install_agent : Run (Option Text)
  unfolding exec_capture probe_cmd upload_agent
  install_agent = do
    want ← lift M.version_line
    (_, out) ← exec_capture W (probe_cmd ctx)
    (if text_eq (trim (M.lossy out)) want
        then pure (some (agent_path_q ctx))
        else upload_agent want)

  unfoldable pub bootstrap_agent : Run (Option Text)
  unfolding require_ssh exec_capture same_platform install_agent
  bootstrap_agent = do
    require_ssh M
    (_, out) ← exec_capture W (codes "uname -sm")
    (if same_platform (M.lossy out) then install_agent else pure none)

  -- `get_or_try_init`: a result is kept in the cell, an error is not.
  unfoldable pub keep_agent : Option Text → Run (Option Text)
  keep_agent path s = (ok path, record s { agent = some path })

  unfoldable pub agent_in : Option (Option Text) → Run (Option Text)
  unfolding bootstrap_agent keep_agent
  agent_in (some path) = pure path
  agent_in none = do path ← bootstrap_agent; keep_agent path

  unfoldable pub ensure_agent : Run (Option Text)
  unfolding agent_in
  ensure_agent s = agent_in s.agent s
