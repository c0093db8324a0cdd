-- ===== src/Scrape/Laws.antt =====
-- main.rs: which requests the metrics endpoint serves.
use Prim.Native.String.{String, [], ◌∷◌}
use fabricd.Base.{◌≡◌, ◌⊎◌, Option, none, some}

-- The first text and then the second.
abbrev pub followed_by : String → String → String
followed_by [] rest = rest
followed_by (c ∷ piece) rest = c ∷ followed_by piece rest

-- The line of a scrape: `GET /metrics`, alone or with a space and anything after it.
abbrev pub IsScrape : Option String → Type 0
IsScrape none = ⊥
IsScrape (some line) =
    ◌≡◌ {A = String} line "GET /metrics"
    ⊎ ((rest : String) × (line ≡ followed_by "GET /metrics " rest))
