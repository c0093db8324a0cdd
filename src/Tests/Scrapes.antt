-- ===== src/Tests/Scrapes.antt =====
-- main.rs, the metrics endpoint, on the requests of its own unit tests.
use fabricd.Base.{◌≡◌, refl, false}
use fabricd.Scrape.{is_metrics_request}

refuses_longer_path : is_metrics_request "GET /metricsfoo HTTP/1.1\r\n\r\n" ≡ false
unfolding is_metrics_request
refuses_longer_path = refl

-- A carriage return without a line feed belongs to its line.
keeps_bare_return : is_metrics_request "GET /metrics\r" ≡ false
unfolding is_metrics_request
keeps_bare_return = refl
