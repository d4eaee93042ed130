-- ===== src/Transfer.antt =====
-- src/transfer.rs: transfer strategies, the command lines of the tar stream, the snapshot's name;
-- and the choice of a strategy in `build_context` of src/main.rs.
use cargo_remote.Prelude.{
  ◌≡◌, refl, List, [], ◌∷◌, ◌++◌, map, Text, codes, Bool, false, not, ◌&&◌, ◌||◌, Option, none,
  some, if◌then◌else◌, ◌==◌, is_empty, is_ascii_alphanumeric,
}
use cargo_remote.Cli.{TransferMode}
use cargo_remote.Shell.{shell_join}

pub data Compressor : Type 0 where
  no_compressor gzip zstd : Compressor

unfoldable pub compress_prog : Compressor → Text
compress_prog no_compressor = []
compress_prog gzip = codes "gzip"
compress_prog zstd = codes "zstd"

unfoldable pub decompress_stage : Compressor → Text
decompress_stage no_compressor = []
decompress_stage gzip = codes "gzip -dc"
decompress_stage zstd = codes "zstd -dc"

pub data Transfer : Type 0 where
  auto delta tar_incremental : Transfer
  tar : Compressor → Transfer

unfoldable pub name : Transfer → Text
name auto = codes "auto"
name delta = codes "delta"
name (tar no_compressor) = codes "tar"
name (tar gzip) = codes "tar-gz"
name (tar zstd) = codes "tar-zstd"
name tar_incremental = codes "tar-inc"

-- the `match` of `build_context`
unfoldable pub transfer_of_mode : TransferMode → Transfer
transfer_of_mode TransferMode.auto = auto
transfer_of_mode TransferMode.rsync = delta
transfer_of_mode TransferMode.rsync_z = delta
transfer_of_mode TransferMode.tar = tar no_compressor
transfer_of_mode TransferMode.tar_gz = tar gzip
transfer_of_mode TransferMode.tar_zstd = tar zstd
transfer_of_mode TransferMode.tar_inc = tar_incremental

-- The host part of the names of snapshot and lock files.
unfoldable pub sane_host : Text → Text
sane_host host =
    map (λ c. if is_ascii_alphanumeric c || ((c == b'-') || (c == b'.')) then c else b'_') host

unfoldable pub snapshot_name : Text → Text → Text
snapshot_name host project = sane_host host ++ (b'-' ∷ (project ++ codes ".snar"))

unfoldable pub exclude_args : List Text → List Text
exclude_args es = map (λ e. codes "--exclude=./" ++ e) es

-- The arguments of the local `tar`; `snapshot` is given for an incremental archive.
unfoldable pub tar_args : Option Text → List Text → Text → List Text
unfolding exclude_args
tar_args snapshot excludes root =
    elim snapshot [ none ↦ [] | some snar ↦ (codes "--listed-incremental=" ++ snar) ∷ [] ]
    ++ (exclude_args excludes ++ (codes "-C" ∷ root ∷ codes "-cf" ∷ codes "-" ∷ codes "." ∷ []))

-- The remote end of the stream, for the quoted remote directory.
unfoldable pub tar_remote_line : Compressor → Bool → Text → Text
unfolding decompress_stage
tar_remote_line compressor incremental dir_q =
    codes "mkdir -p "
    ++ (dir_q
        ++ (codes " && "
            ++ ((if incremental
                  then codes "tar -x --listed-incremental=/dev/null -f -"
                  else if is_empty (decompress_stage compressor)
                  then codes "tar -xf -"
                  else decompress_stage compressor ++ codes " | tar -xf -")
                ++ (codes " -C " ++ dir_q))))

unfoldable pub tar_local_line : Compressor → Bool → List Text → Text
unfolding compress_prog
tar_local_line compressor incremental args =
    codes "tar "
    ++ (shell_join args
        ++ (if not incremental && not (is_empty (compress_prog compressor))
            then codes " | " ++ (compress_prog compressor ++ codes " -c")
            else []))

gz_line : tar_remote_line gzip false (codes "d") ≡ codes "mkdir -p d && gzip -dc | tar -xf - -C d"
unfolding tar_remote_line
gz_line = refl
