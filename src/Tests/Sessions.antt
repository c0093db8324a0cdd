-- ===== src/Tests/Sessions.antt =====
-- main.rs, `serve`: whole sessions over the echo drivers.
use fabricd.Base.{ℕ, ◌≤◌, ◌≡◌, refl, none, some, List, [], ◌∷◌, length, ok, err}
use fabricd.Wire.{WireInit, WireCall, init, call, drain, WireResponse, ack, init_error}
use fabricd.Resources.Table.{resolve, pick}
use fabricd.SaToken.Keys.{cached}
use fabricd.ClientAuth.{Authenticator, shared_secret, reject, authenticate}
use fabricd.Session.{Frame, request, Closed, serve}
use fabricd.Session.Isolation.{serve-SameFor, serve_unopened}
use fabricd.Session.Replies.{IsAnswered, serve_opened}
use fabricd.Session.Rejection.{serve_rejected}
use fabricd.Tests.Fixtures.{
  toolkit, plain_jwt, echoes, raw_payloads, unchanged, calm, daemon, acme_init, acme_configs,
  both_table,
}
use fabricd.Tests.Resources.{acme-SameFor}

abbrev secret : Authenticator
secret = shared_secret "s3cret" none

abbrev intruder : WireInit
intruder = record acme_init { token = some "guess" }

abbrev query : WireCall
query = record { name = "db"; action = "query"; payload = "SELECT 1" }

abbrev frames : List Frame
frames = request (call query) ∷ request drain ∷ request (init acme_init) ∷ []

abbrev run : List Frame → Closed ℕ
run sent =
    serve toolkit unchanged echoes raw_payloads plain_jwt calm daemon secret (cached none) 0 sent 0

accepted : authenticate toolkit plain_jwt (cached none) 0 secret (some "s3cret") ≡ ok tt
unfolding authenticate
accepted = refl

rejected :
    authenticate toolkit plain_jwt (cached none) 0 secret (some "guess")
    ≡ err (reject "client auth token rejected")
unfolding authenticate
rejected = refl

resolved : resolve daemon.table acme_init ≡ ok acme_configs
unfolding resolve pick
resolved = refl

serve-SameFor_example :
    run (request (init acme_init) ∷ frames)
    ≡ serve toolkit unchanged echoes raw_payloads plain_jwt calm
        (record daemon { table = both_table })
        secret
        (cached none)
        0
        (request (init acme_init) ∷ frames)
        0
serve-SameFor_example =
    serve-SameFor toolkit unchanged echoes raw_payloads plain_jwt calm daemon secret (cached none) 0
      both_table acme_init frames 0 acme-SameFor

serve_unopened_example :
    ((run (request (init intruder) ∷ frames)).world ≡ 0)
    × (length (run (request (init intruder) ∷ frames)).sent ≤ 1)
serve_unopened_example =
    serve_unopened toolkit unchanged echoes raw_payloads plain_jwt calm daemon secret (cached none)
      0 (request (init intruder) ∷ frames) 0 (λ opens. cc (opens.0, rejected))

serve_opened_example :
    (answers : List WireResponse) × ((run (request (init acme_init) ∷ frames)).sent ≡ ack ∷ answers)
    × IsAnswered toolkit unchanged echoes raw_payloads plain_jwt calm 1 frames answers
        (run (request (init acme_init) ∷ frames)).result
serve_opened_example =
    serve_opened toolkit unchanged echoes raw_payloads plain_jwt calm daemon secret (cached none) 0
      acme_init acme_configs frames 0 accepted resolved refl

serve_rejected_example :
    ((run (request (init intruder) ∷ frames)).result ≡ ok tt)
    × ((run (request (init intruder) ∷ frames)).sent
        ≡ init_error "UNAUTHENTICATED" (reject "client auth token rejected").message ∷ [])
serve_rejected_example =
    serve_rejected toolkit unchanged echoes raw_payloads plain_jwt calm daemon secret (cached none)
      0 intruder frames 0 (reject "client auth token rejected") rejected refl
