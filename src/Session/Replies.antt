-- ===== src/Session/Replies.antt =====
-- main.rs: the frames that a session writes.
use mathlib.Core.Path.{subst}
use mathlib.Core.List.{append_assoc, append-nil}
use fabricd.Base.{
  ℕ, suc, String, err, false, ◌≡◌, refl, sym, ◌∙◌, ◌⊎◌, inl, inr, true, Bool-cases, Option, none,
  some, List, [], ◌∷◌, ◌++◌, length, length-append, arith, Result, ok,
}
use fabricd.Wire.{
  EgressError, Toolkit, WireInit, WireCall, WireRequest, init, call, drain, BackendMetrics,
  WireResponse, ack, reply, metrics, protocol_error,
}
use fabricd.Resources.Table.{ResolvedConfigs, resolve}
use fabricd.Resources.Clamp.{clamp_db_statement_timeout}
use fabricd.SaToken.Keys.{Jwt, Cache}
use fabricd.ClientAuth.{Authenticator, authenticate}
use fabricd.BackendSet.Payloads.{Decoders}
use fabricd.BackendSet.Drivers.{DriverSet}
use fabricd.BackendSet.{from_configs}
use fabricd.Session.{
  Shared, Frame, request, broken, Process, Set, respond, dispatch, dispatch_joined, serve_calls,
  deps_of, open_resolved, open_authenticated, serve,
}

-- The kind of answer that each request draws.
abbrev pub Answers : WireRequest → WireResponse → Type 0
Answers (call c) r =
    ((result : Result EgressError String) × (r ≡ reply result))
    ⊎ ((why : String) × (r ≡ protocol_error why))
Answers drain r = (m : BackendMetrics) × (r ≡ metrics m)
Answers (init again) r = (why : String) × (r ≡ protocol_error why)

-- The answers go with the first requests, one for one.
abbrev pub Transcript : List Frame → List WireResponse → Type 0
Transcript frames [] = Unit
Transcript [] (r ∷ rs) = ⊥
Transcript (broken e ∷ frames) (r ∷ rs) = ⊥
Transcript (request q ∷ frames) (r ∷ rs) = Answers q r × Transcript frames rs

abbrev pub IsWhole : List Frame → Type 0
IsWhole [] = Unit
IsWhole (broken e ∷ frames) = ⊥
IsWhole (request q ∷ frames) = IsWhole frames

module _ {W Breaker : Type 0} (t : Toolkit) (upper : String → String) (d : DriverSet W Breaker)
    (decode : Decoders) (jwt : Jwt) (p : Process t upper d) where
  dispatch_joined-Answers :
      (joined : Option String) (c : WireCall) (set : Set t upper d decode jwt p) (w : W)
      → Answers (call c) (dispatch_joined t upper d decode jwt p joined c set w).0
  unfolding dispatch_joined
  dispatch_joined-Answers (some e) c set w = inr (_, refl)
  dispatch_joined-Answers none c set w = inl (_, refl)

  pub respond-Answers :
      (q : WireRequest) (set : Set t upper d decode jwt p) (w : W)
      → Answers q (respond t upper d decode jwt p q set w).0
  unfolding respond dispatch
  respond-Answers (call c) set w = dispatch_joined-Answers (p.panics c set w) c set w
  respond-Answers drain set w = (_, refl)
  respond-Answers (init again) set w = (_, refl)

  -- What the loop writes where `n` frames have been written, and how it ends: each request is
  -- answered, until the stream ends, a frame is broken, or the peer does not take the answer.
  pub data IsAnswered : ℕ → List Frame → List WireResponse → Result String (Unit {0}) → Type 0 where
    at_end : {n : ℕ} → IsAnswered n [] [] (ok tt)
    at_broken :
        {n : ℕ} {e : String} {frames : List Frame} → IsAnswered n (broken e ∷ frames) [] (err e)
    untaken :
        {n : ℕ} {q : WireRequest} {frames : List Frame}
        → p.takes n ≡ false
        → IsAnswered n (request q ∷ frames) [] (err p.write_error)
    answered :
        {n : ℕ} {q : WireRequest} {r : WireResponse} {frames : List Frame} {rs : List WireResponse}
        {result : Result String (Unit {0})}
        → p.takes n ≡ true
        → Answers q r
        → IsAnswered (suc n) frames rs result
        → IsAnswered n (request q ∷ frames) (r ∷ rs) result

  serve_calls-IsAnswered :
      (frames : List Frame) (sent : List WireResponse) (failures : ℕ)
      (set : Set t upper d decode jwt p) (w : W)
      → let c = serve_calls t upper d decode jwt p frames sent failures set w in
        (answers : List WireResponse) × (c.sent ≡ sent ++ answers)
        × IsAnswered (length sent) frames answers c.result
  unfolding serve_calls
  serve_calls-IsAnswered [] sent failures set w = ([], sym (append-nil _), at_end)
  serve_calls-IsAnswered (broken e ∷ frames) sent failures set w =
      ([], sym (append-nil _), at_broken)
  serve_calls-IsAnswered (request q ∷ frames) sent failures set w =
      let (response, set', w') = respond t upper d decode jwt p q set w in
      let (answers, written, rest) =
        serve_calls-IsAnswered frames (sent ++ response ∷ []) failures set' w' in
      let counted : length (sent ++ response ∷ []) ≡ suc (length sent) =
        omega (arith, length-append sent (response ∷ [])) in
      let c = serve_calls t upper d decode jwt p frames (sent ++ response ∷ []) failures set' w' in
      elim (Bool-cases (p.takes (length sent))) [
        | inl taken ↦ (
          response ∷ answers,
          rw taken (written ∙ append_assoc sent (response ∷ []) answers),
          rw taken (
              answered taken (respond-Answers q set w)
                (subst (λ n. IsAnswered n frames answers c.result) counted rest)),
        )
        | inr refused ↦ ([], rw refused (sym (append-nil _)), rw refused (untaken refused))
      ]

  module _ (shared : Shared Breaker) (a : Authenticator) (cache : Cache jwt.Key) (now : ℕ) where
    -- A session whose token is accepted and whose names resolve is answered by `Ack` and then by one
    -- answer to each later request, of the request's kind and in order. It stops early only at a
    -- frame that is broken or an answer that the peer does not take, and then with that error;
    -- otherwise it ends without error.
    pub serve_opened :
        (i : WireInit) (c : ResolvedConfigs) (frames : List Frame) (w : W)
        → authenticate t jwt cache now a i.token ≡ ok tt
        → resolve shared.table i ≡ ok c
        → p.takes 0 ≡ true
        → let done =
            serve t upper d decode jwt p shared a cache now (request (init i) ∷ frames) w in
          (answers : List WireResponse) × (done.sent ≡ ack ∷ answers)
          × IsAnswered 1 frames answers done.result
    unfolding serve open_authenticated open_resolved
    serve_opened i c frames w accepted resolved taken =
        let capped = clamp_db_statement_timeout shared.max_statement_timeout_ms c in
        let set = from_configs t upper d capped (deps_of t upper d decode jwt p shared i) in
        rw accepted (
          rw resolved
            (rw taken (serve_calls-IsAnswered frames (ack ∷ []) shared.auth_failures set w)))
