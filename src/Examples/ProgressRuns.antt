-- ===== src/Examples/ProgressRuns.antt =====
-- The reports of a download.
use runed.Prelude.{
  pos, negsuc, Bytes, ℕ, ◌+◌, ◌-◌, ◌*◌, ◌≤◌, ◌≡◌, refl, arith, [], ◌∷◌, none, some, List, Bool,
  true, text, ok, ◌<◌,
}
use runed.Bootstrap.Progress.{transfer_ticks, Tick, total_of, reports, progress_log_interval}
use runed.Server.Types.{Server, Embedder}
use runed.Server.Wiring.{new}
use runed.Server.Health.{health, status_loading}
use runed.Backend.Types.{serving_ok}
use runed.Daemon.Boot.{stage_phase}
use runed.Daemon.Reporter.{download_ticks}
use runed.Daemon.Reporter.Fresh.{Among, download_health}
use runed.Bootstrap.Download.{stream_with_progress}
use runed.Daemon.Reporter.Transfer.{transferred_health}
use runed.Bootstrap.Progress.Throttled.{unfinished, Told, final_time, reports-Throttled}

abbrev tick : ℕ → ℕ → Tick
tick now downloaded = record { now = now; downloaded = downloaded; observed_total = negsuc 0 }

-- The second call comes too soon, and the last two are for a complete download.
abbrev later_ticks : List Tick
later_ticks =
    tick 1000000000 20 ∷ tick 2500000000 30 ∷ tick 2600000000 100 ∷ tick 2700000000 110 ∷ []

four_reports :
    reports (pos 100) none (tick 0 10 ∷ later_ticks)
    ≡ (tick 0 10, some (10, pos 100))
      ∷ (tick 1000000000 20, none)
      ∷ (tick 2500000000 30, some (30, pos 100))
      ∷ (tick 2600000000 100, some (100, pos 100))
      ∷ (tick 2700000000 110, some (110, pos 100))
      ∷ []
unfolding reports
four_reports = refl

reports-Throttled_example :
    let rs = reports (pos 100) none (tick 0 10 ∷ later_ticks) in
    (unfinished (pos 100) rs * progress_log_interval
      ≤ (final_time 0 later_ticks - 0) + progress_log_interval)
    × Told (pos 100) rs
reports-Throttled_example =
    reports-Throttled (pos 100) (tick 0 10) later_ticks
      (omega arith, (omega arith, (omega arith, (omega arith, tt))))

abbrev willing : Embedder Bool
willing = record {
  State = ℕ;
  ctx_size = λ t. 2048;
  ensure_started = λ t. (none, t);
  embed = λ text t. (ok (true ∷ []), t);
  embed_batch = λ texts t. (ok [], t);
  serving = λ t. (serving_ok, t);
}

abbrev loading : Server Bool
loading = new (text "v1") 5

download_health_example :
    let r =
      (health willing 9
        (download_ticks (text "model") (pos 0) none (tick 0 10 ∷ tick 1000000000 20 ∷ []) loading)
        0).0 in
    (r.status ≡ status_loading)
    × (r.phase ≡ (stage_phase (text "model")).0)
    × (r.message ≡ (stage_phase (text "model")).1)
    × ((u : Tick) × (Among u (tick 0 10 ∷ tick 1000000000 20 ∷ [])
          × (r.bytes_done ≡ u.downloaded)
          × (r.bytes_total ≡ total_of (pos 0) u)
          × (1000000000 < u.now + progress_log_interval)))
unfolding new
download_health_example =
    download_health willing (text "model") (pos 0) (tick 0 10) (tick 1000000000 20 ∷ []) loading 0 9
      refl refl (omega arith, tt)

abbrev chunks : List Bytes
chunks = text "GG" ∷ [] ∷ text "UF" ∷ []

transferred_health_example :
    let u =
      download_ticks
        (text "model")
        (pos 4)
        none
        (transfer_ticks (λ i. true) (λ i. 7) (negsuc 0) 0 0 chunks)
        loading in
    let r = (health willing 9 u 0).0 in
    (r.status ≡ status_loading)
    × (r.phase ≡ (stage_phase (text "model")).0)
    × (r.message ≡ (stage_phase (text "model")).1)
    × (r.bytes_done ≡ 4)
    × (r.bytes_total ≡ pos 4)
unfolding new stream_with_progress
transferred_health_example =
    transferred_health willing (text "model") (pos 4) (negsuc 0) (λ i. true) (λ i. 7) chunks true
      none loading 0 9 refl (λ e. cc) refl refl refl
