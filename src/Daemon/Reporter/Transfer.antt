-- ===== src/Daemon/Reporter/Transfer.antt =====
-- What Health tells of a download whose transfer is over.
use runed.Prelude.{
  ℤ, pos, pos_part, ltb, ℕ, suc, ◌+◌, ◌<◌, ◌≡◌, refl, ◌≢◌, ◌⊎◌, inl, inr, arith, Bool, true, false,
  List, [], ◌∷◌, Option, some, Bytes, Bool-cases, if◌then◌else◌, length, length-append, subst, sym,
}
use runed.Bootstrap.Progress.{Tick, progress, complete, transfer_ticks}
use runed.Bootstrap.Download.{stream_with_progress}
use runed.Server.Types.{Server, Embedder}
use runed.Server.Wiring.{set_bootstrap_status}
use runed.Server.Health.{health, status_loading, loading_response, backend_health}
use runed.Daemon.Boot.{stage_phase}
use runed.Daemon.Reporter.{reporter, reported, download_ticks}
use runed.Daemon.Reporter.Fresh.{status_of, ticks_kept}

-- The total that is reported.
abbrev pub size_of : ℤ → ℤ → ℤ
size_of expected total = if ltb 0 (pos_part expected) then expected else total

abbrev chunk_tick : ℕ → ℕ → ℤ → Tick
chunk_tick now done total = record { now = now; downloaded = done; observed_total = total }

module _ {V : Type 0} (stage : Bytes) (expected : ℤ) where
  complete_shown :
      (last : Option ℕ) (t : Tick) (s : Server V)
      → complete expected t ≡ true
      → (reported stage (progress expected last t).0 s).bootstrap_status
        ≡ some (status_of stage expected t)
  unfolding progress reported reporter set_bootstrap_status
  complete_shown last t s c = rw c refl

  -- The status after a transfer of `n` bytes, which are all.
  abbrev AllOf : ℕ → Server V → Type 0
  AllOf n s =
      s.bootstrap_status
      ≡ some (record {
        phase = (stage_phase stage).0;
        bytes_done = n;
        bytes_total = pos n;
        message = (stage_phase stage).1;
      })

  module _ (write : ℕ → Bool) (now : ℕ → ℕ) (total : ℤ) (size : ℕ)
      (known : size_of expected total ≡ pos size) where
    -- A chunk that is written, and after which nothing more is.
    last_chunk-AllOf :
        (last : Option ℕ) (t : Tick) (s : Server V)
        → t.observed_total ≡ total
        → size ≡ t.downloaded
        → 0 < t.downloaded
        → AllOf size (reported stage (progress expected last t).0 s)
    last_chunk-AllOf last t s o e h = ground (arith, complete_shown last t s (ground arith))

    transfer-AllOf :
        (cs : List Bytes) (eof : Bool) (i written : ℕ) (last : Option ℕ) (s : Server V)
        → let r = stream_with_progress write i cs eof in
          let u =
            download_ticks stage expected last (transfer_ticks write now total i written cs) s in
          r.1 ≡ true → size ≡ written + length r.0 → ((r.0 ≡ []) × (u ≡ s)) ⊎ AllOf size u
    unfolding stream_with_progress transfer_ticks download_ticks
    transfer-AllOf [] eof i written last s e z = inl (refl, refl)
    transfer-AllOf ([] ∷ cs) eof i written last s e z =
        transfer-AllOf cs eof i (written + 0) last s e (omega (arith, z))
    transfer-AllOf ((b ∷ c) ∷ cs) eof i written last s e z = elim (Bool-cases (write i)) [
      | inl w ↦
          (let t = chunk_tick (now i) (written + suc (length c)) total in
            let p = progress expected last t in
            let s1 = reported stage p.0 s in
            let r = stream_with_progress write (i + 1) cs eof in
            rw w (
              inr
                (elim (transfer-AllOf cs eof (i + 1) t.downloaded p.1 s1 (ground arith)
                  (ground (arith, length-append c r.0))) [
                    | inl (n, q) ↦ subst (AllOf size) (sym q) (
                        last_chunk-AllOf last t s refl (ground (arith, length-append c r.0))
                          (omega arith))
                    | inr a ↦ a
                  ])))
      | inr w ↦ absurd (ground arith)
    ]

-- After a transfer that ended without an error, of content that is not empty and has the size that is
-- reported as the total, whatever was reported before it and whenever its chunks came: before a backend
-- or a shutdown, Health reports LOADING, with the phase and the message of the stage, and all bytes of
-- the content of as many.
pub transferred_health :
    {V : Type 0} (E : Embedder V) (stage : Bytes) (expected total : ℤ) (write : ℕ → Bool)
    (now : ℕ → ℕ) (chunks : List Bytes) (eof : Bool) (last : Option ℕ) (s : Server V) (w : E.State)
    (time : ℕ)
    → (stream_with_progress write 0 chunks eof).1 ≡ true
    → (stream_with_progress write 0 chunks eof).0 ≢ []
    → size_of expected total ≡ pos (length (stream_with_progress write 0 chunks eof).0)
    → s.backend ≡ false
    → s.shutdown_closed ≡ false
    → let size = length (stream_with_progress write 0 chunks eof).0 in
      let u = download_ticks stage expected last (transfer_ticks write now total 0 0 chunks) s in
      let r = (health E time u w).0 in
      (r.status ≡ status_loading)
      × (r.phase ≡ (stage_phase stage).0)
      × (r.message ≡ (stage_phase stage).1)
      × (r.bytes_done ≡ size)
      × (r.bytes_total ≡ pos size)
unfolding health backend_health loading_response
transferred_health E stage expected total write now chunks eof last s w time done some_bytes size b
      c =
    let kept = ticks_kept stage expected last (transfer_ticks write now total 0 0 chunks) s in
    elim (transfer-AllOf stage expected write now total
      (length (stream_with_progress write 0 chunks eof).0) size chunks eof 0 0 last s done
      (omega arith)) [ inl (n, q) ↦ absurd (some_bytes n) | inr a ↦ ground arith ]
