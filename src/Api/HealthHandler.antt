-- ===== src/Api/HealthHandler.antt =====
-- Health checks (internal/api/health_handler.go).
use letterbox.Prelude.{
  ℕ, ◌+◌, Text, codes, ◌++◌, Bool, true, false, ◌&&◌, Option, none, some, ltb, ◌==◌, if◌then◌else◌,
  ◌≡◌, ◌<◌, ◌↔◌, arith, ◌⊎◌,
}
use letterbox.Prelude.Separators.{decimal}
use letterbox.Sync.Coordinator.Membership.{CoordinatorStats}

pub record SyncCheck : Type 0 where
  pub stats : CoordinatorStats
  pub status : Text

pub record ReadyResponse : Type 0 where
  pub database : Text
  pub s3 : Text
  pub sync : Option SyncCheck
  pub status : Text

-- The error of a ping, nil being `none`.
abbrev ping_status : Option Text → Text
ping_status none = codes "ok"
ping_status (some message) = message

abbrev is_up : Option Text → Bool
is_up none = true
is_up (some message) = false

abbrev pub has_connections : CoordinatorStats → Bool
has_connections stats =
    if ltb 0 stats.idle_accounts && stats.connected_idle == 0 then false else true

unfoldable pub check_sync : CoordinatorStats → SyncCheck
check_sync stats = record {
  stats = stats;
  status =
      if has_connections stats
      then (if ltb 0 (stats.idle_accounts + stats.polled_accounts)
          then codes "ok"
          else codes "ok (no accounts)")
      else codes "unhealthy: "
        ++ (decimal stats.idle_accounts ++ codes " IDLE accounts but 0 connected");
}

abbrev sync_checked : Option CoordinatorStats → Option SyncCheck
sync_checked none = none
sync_checked (some stats) = some (check_sync stats)

abbrev pub is_synced : Option CoordinatorStats → Bool
is_synced none = true
is_synced (some stats) = has_connections stats

-- The status code and the body, by the pings of the database and of S3 and by the statistics of the
-- synchronisation, which may be absent.
unfoldable pub ready : Option Text → Option Text → Option CoordinatorStats → ℕ × ReadyResponse
unfolding check_sync decimal
ready db s3 sync =
    let all_healthy = is_up db && (is_up s3 && is_synced sync) in
    (
      if all_healthy then 200 else 503,
      record {
        database = ping_status db;
        s3 = ping_status s3;
        sync = sync_checked sync;
        status = if all_healthy then codes "ok" else codes "unhealthy";
      },
    )

-- GET /health
pub health : ℕ × Text
health = (200, codes "ok")

-- The service is ready exactly if both pings succeed and not all IDLE connections are down.
ready_iff :
    (db s3 : Option Text) (stats : CoordinatorStats)
    → ((ready db s3 (some stats)).0 ≡ 200)
      ↔ ((db ≡ none) × ((s3 ≡ none) × ((stats.idle_accounts ≡ 0) ⊎ (0 < stats.connected_idle))))
unfolding ready
ready_iff none none stats = ground arith
ready_iff none (some s) stats = ground arith
ready_iff (some s) none stats = ground arith
ready_iff (some s) (some t) stats = ground arith
