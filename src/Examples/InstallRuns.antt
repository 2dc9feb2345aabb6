-- ===== src/Examples/InstallRuns.antt =====
-- The installation of the llama-server at concrete inputs.
use runed.Prelude.{
  ℕ, ◌+◌, ◌*◌, ◌/◌, ◌≤◌, ◌<◌, ◌≡◌, refl, arith, true, [], ◌∷◌, none, some, Bytes, text, ◌==◌,
  if◌then◌else◌, All,
}
use runed.Prelude.FilePath.{join, clean, is_local}
use runed.Prelude.FilePath.Below.{Below}
use runed.Prelude.Files.{Disk, complete}
use runed.Prelude.Flock.{reply, eagain, would_block, poll_interval}
use runed.Bootstrap.Extract.{
  EntryCalls, Entry, type_reg, Archive, ExtractCalls, extract_tar_gz, extract_to, extract_loop,
  extract_entry, extract_local, write_one, write_outcome, after_entry,
}
use runed.Bootstrap.Extract.Confined.{extract_tar_gz-Confined, Confined}
use runed.Bootstrap.Lock.{LockCalls, acquire_lock}
use runed.Bootstrap.Lock.Timeout.{LockEnds, acquire_lock-ends}
use runed.Bootstrap.Manifest.{llama_server_for_platform}
use runed.Bootstrap.Layout.{Paths, layout}
use runed.Bootstrap.Install.{ServerCalls, ensure_llama_server, llama_server_target, marker_path}
use runed.Bootstrap.Install.Steps.{Present}
use runed.Bootstrap.Install.Verified.{Installed, Failed, Returned, ensure_llama_server-verified}
use runed.Prelude.{ok, ap, length, false, ◌≢◌, ◌⊎◌}
use runed.Examples.Sample.{short_hash}
use runed.Examples.BootstrapRuns.{network, server_spec, manifest}

abbrev pub succeeds : EntryCalls
succeeds = record {
  mkdir_all = true;
  open_tmp = true;
  copy = true;
  partial = [];
  sync = true;
  close = true;
  chmod = true;
  rename = true;
}

abbrev pub file : Bytes → Entry
file name = record { name = name; typeflag = type_reg; content = text "x"; calls = succeeds }

-- One entry that leaves the directory and comes back to it, and two that leave it.
abbrev pub archive : Archive
archive = record {
  entries =
      file (text "bin/../bin/llama-server")
      ∷ file (text "../evil")
      ∷ file (text "/etc/passwd")
      ∷ [];
  ends_in_eof = true;
}

abbrev pub opened : ExtractCalls
opened = record {
  open_archive = true;
  gzip_reader = true;
  mkdir_all = true;
  abs = some (text "/r/bin/llama-cpp");
}

abbrev pub no_files : Disk
no_files p = none

unpacked :
    (extract_tar_gz opened archive no_files).extracted
    ≡ text "/r/bin/llama-cpp/bin/llama-server" ∷ []
unfolding extract_tar_gz extract_to extract_loop extract_entry extract_local write_one write_outcome
    after_entry is_local join clean
unpacked = refl

extract_tar_gz-Confined_example :
    let r = extract_tar_gz opened archive no_files in
    All (Below (text "/r/bin/llama-cpp")) r.extracted
    × Confined (text "/r/bin/llama-cpp") no_files r.disk
extract_tar_gz-Confined_example =
    extract_tar_gz-Confined opened archive no_files (text "/r/bin/llama-cpp") refl refl

-- Another process holds the lock for three tries.
abbrev pub lock_calls : LockCalls
lock_calls = record {
  opened = true;
  tries = record {
    errno = λ k. if k == 3 then none else some eagain;
    now = λ k. 5 + k * poll_interval;
  };
  truncate = true;
  write_pid = true;
  seen = none;
  pid = 77;
}

acquire_lock-ends_example :
    (n : ℕ) × (n ≤ 1000000000 / poll_interval + 1)
    × ((k : ℕ)
        → k < n
        → (reply lock_calls.tries k ≡ would_block) × (lock_calls.tries.now k ≤ 5 + 1000000000))
    × LockEnds lock_calls
        (5 + 1000000000)
        n
        (acquire_lock (text "/r/install.lock") 5 1000000000 lock_calls no_files).0
acquire_lock-ends_example =
    acquire_lock-ends (text "/r/install.lock") 5 1000000000 lock_calls no_files refl (omega arith)
      (λ k. omega arith)

abbrev pub paths : Paths
paths = layout (text "/r")

abbrev pub server_calls : ServerCalls
server_calls = record {
  read_marker = true;
  mkdir_all = true;
  chmod_raw = true;
  is_dir = false;
  chmod = true;
  marker = complete;
}

abbrev pub untar : Bytes → ExtractCalls × Archive
untar content = (opened, archive)

apart : marker_path paths.llama_dir ≢ llama_server_target paths.llama_dir server_spec
unfolding join clean
apart e = absurd (omega (arith, ap length e))

known : llama_server_for_platform manifest (text "linux-amd64") ≡ ok server_spec
unfolding llama_server_for_platform
known = refl

ensure_llama_server-verified_example :
    let r =
      ensure_llama_server short_hash untar server_calls network paths manifest
        (text "linux-amd64")
        no_files in
    Failed r
    ⊎ (Returned paths server_spec r
        × (((no_files (marker_path paths.llama_dir) ≡ some server_spec.sha256)
              × Present server_calls no_files (llama_server_target paths.llama_dir server_spec)
              × (r.1 ≡ no_files))
            ⊎ Installed short_hash untar server_calls paths server_spec r.1))
ensure_llama_server-verified_example =
    ensure_llama_server-verified short_hash untar server_calls network paths server_spec no_files
      manifest (text "linux-amd64") known apart
