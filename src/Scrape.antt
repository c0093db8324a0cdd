-- ===== src/Scrape.antt =====
-- crates/fabricd/src/main.rs: the metrics endpoint, one HTTP exchange for each connection.
pub mod Laws
use Prim.Native.String.{String, [], ◌∷◌, len}
use mathlib.Core.List.{[], ◌∷◌}
use fabricd.Base.{
  ℕ, Bool, true, false, Option, none, some, ◌==◌, ◌||◌, ◌&&◌, if◌then◌else◌, format, show, ok, Eff,
  ◌>>=◌,
}
use fabricd.Wire.{Breakers}
use fabricd.Session.{Shared}

-- `str::starts_with`, with the prefix first.
unfoldable pub starts_with : String → String → Bool
starts_with [] s = true
starts_with (c ∷ piece) [] = false
starts_with (c ∷ piece) (d ∷ s) = let rest = starts_with piece s in ((c ∷ []) == (d ∷ [])) && rest

-- The text before its first line ending, which is a line feed with or without a carriage return
-- before it.
unfoldable pub until_line_end : String → String
unfolding starts_with
until_line_end [] = ""
until_line_end (c ∷ s) =
    let rest = until_line_end s in
    if (c ∷ []) == "\n" || ((c ∷ []) == "\r" && starts_with "\n" s) then "" else c ∷ rest

-- `head.lines().next()`
unfoldable pub first_line : String → Option String
unfolding until_line_end
first_line [] = none
first_line (c ∷ s) = some (until_line_end (c ∷ s))

unfoldable pub is_metrics_line : Option String → Bool
unfolding starts_with
is_metrics_line none = false
is_metrics_line (some line) = (line == "GET /metrics") || starts_with "GET /metrics " line

unfoldable pub is_metrics_request : String → Bool
unfolding is_metrics_line first_line
is_metrics_request head = is_metrics_line (first_line head)

module _ {W : Type 0} (breakers : Breakers W) where
  abbrev trips_of : Option breakers.Breaker → W → ℕ
  trips_of none w = 0
  trips_of (some breaker) w = breakers.trips breaker w

  unfoldable pub render_metrics : Shared breakers.Breaker → W → String
  render_metrics shared w = format (
      "# HELP fabricd_db_breaker_trips_total Cumulative db circuit-breaker open transitions (Tier 3).\n"
      ∷ "# TYPE fabricd_db_breaker_trips_total counter\n"
      ∷ "fabricd_db_breaker_trips_total "
      ∷ show (trips_of shared.breaker w)
      ∷ "\n"
      ∷ "# HELP fabricd_auth_failures_total Cumulative client-auth rejections (a spike is a security signal).\n"
      ∷ "# TYPE fabricd_auth_failures_total counter\n"
      ∷ "fabricd_auth_failures_total "
      ∷ show shared.auth_failures
      ∷ "\n"
      ∷ [])

  -- What `serve_metrics_once` answers to the text that it read.
  unfoldable pub scrape_response : Shared breakers.Breaker → String → W → String
  unfolding is_metrics_request render_metrics
  scrape_response shared head w =
      let body = render_metrics shared w in
      if is_metrics_request head
      then format (
          "HTTP/1.1 200 OK\r\ncontent-type: text/plain; version=0.0.4\r\ncontent-length: "
          ∷ show (len body)
          ∷ "\r\nconnection: close\r\n\r\n"
          ∷ body
          ∷ [])
      else "HTTP/1.1 404 Not Found\r\ncontent-length: 0\r\nconnection: close\r\n\r\n"

-- The connection of a scraper; `from_utf8_lossy` decodes what was read.
pub record Tcp (W : Type 0) : Type 1 where
  pub TcpStream : Type 0
  pub Bytes : Type 0
  pub read : TcpStream → (at_most : ℕ) → Eff W String Bytes
  pub from_utf8_lossy : Bytes → String
  pub write_all : TcpStream → String → Eff W String (Unit {0})
  pub shutdown : TcpStream → Eff W String (Unit {0})

module _ {W : Type 0} (breakers : Breakers W) (tcp : Tcp W) where
  -- The response to the text that was read, at the counters of the moment.
  unfoldable pub answer_scrape : Shared breakers.Breaker → tcp.Bytes → Eff W String String
  answer_scrape shared buf w = (ok (scrape_response breakers shared (tcp.from_utf8_lossy buf) w), w)

  unfoldable pub serve_metrics_once :
      tcp.TcpStream → Shared breakers.Breaker → Eff W String (Unit {0})
  unfolding answer_scrape
  serve_metrics_once stream shared = do
    buf ← tcp.read stream 1024
    response ← answer_scrape shared buf
    written ← tcp.write_all stream response
    tcp.shutdown stream
