-- ===== src/Agent/Delivery.antt =====
-- src/agent.rs: one changed file through the whole protocol: SIG_REQ, SIG, PUT, and the write.
use cargo_remote.Prelude.{ℕ, ◌≡◌, refl, List, ◌∷◌, some, Text, text_eq_refl}
use cargo_remote.Rsync.Checksum.{BlockSig}
use cargo_remote.Agent.Disk.{Disk}
use cargo_remote.Agent.Sending.{Sigs, sig_at}

pub sig_at-newest :
    (sigs : Sigs) (p : Text) (x : ℕ × List BlockSig) → sig_at ((p, x) ∷ sigs) p ≡ some x
unfolding sig_at
sig_at-newest sigs p x = rw (text_eq_refl p) refl
