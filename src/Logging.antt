-- ===== src/Logging.antt =====
-- The logger (internal/logging): what its middleware records of an answer, and its configuration.
pub mod Status
mod Examples
use letterbox.Prelude.{
  ℕ, Text, codes, is_empty, text_eq, Bool, true, false, not, ◌&&◌, ◌||◌, List, [], ◌∷◌, ◌++◌, leb,
  ltb, ◌==◌, if◌then◌else◌,
}

-- A call of an http.ResponseWriter
pub data Call : Type 0 where
  header : ℕ → Call
  body : Text → Call

-- The wrapper, with the calls that the writer inside has seen
pub record ResponseWriter : Type 0 where
  pub status : ℕ
  pub wrote_header : Bool
  pub calls : List Call

abbrev pub wrap_response_writer : ResponseWriter
wrap_response_writer = record { status = 200; wrote_header = false; calls = [] }

unfoldable pub write_header : ℕ → ResponseWriter → ResponseWriter
write_header code rw' =
    if rw'.wrote_header
    then rw'
    else record { status = code; wrote_header = true; calls = rw'.calls ++ header code ∷ [] }

unfoldable pub write : Text → ResponseWriter → ResponseWriter
unfolding write_header
write b rw' =
    let rw1 = if not rw'.wrote_header then write_header 200 rw' else rw' in
    record rw1 { calls = rw1.calls ++ body b ∷ [] }

unfoldable pub call : Call → ResponseWriter → ResponseWriter
unfolding write_header write
call (header code) rw' = write_header code rw'
call (body b) rw' = write b rw'

-- A handler is the calls that it makes.
unfoldable pub serve : List Call → ResponseWriter → ResponseWriter
unfolding call
serve [] rw' = rw'
serve (c ∷ calls) rw' = serve calls (call c rw')

pub data Level : Type 0 where
  debug_level info_level warn_level error_level : Level

unfoldable pub level_of : ℕ → Level
level_of status =
    if leb 500 status then error_level else if leb 400 status then warn_level else info_level

-- The level and the status of the line that is logged, and what the client's writer has seen
unfoldable pub request_logger : List Call → (Level × ℕ) × List Call
unfolding serve level_of
request_logger handler =
    let wrapped = serve handler wrap_response_writer in
    ((level_of wrapped.status, wrapped.status), wrapped.calls)

-- strings.ToLower
module _ (to_lower : Text → Text) where
  -- The level, and whether the text was recognised
  unfoldable pub parse_level : Text → Level × Bool
  parse_level level =
      let s = to_lower level in
      if text_eq s (codes "debug")
      then (debug_level, true)
      else if text_eq s (codes "info") || is_empty s
      then (info_level, true)
      else if text_eq s (codes "warn") || text_eq s (codes "warning")
      then (warn_level, true)
      else if text_eq s (codes "error")
      then (error_level, true)
      else (info_level, false)
