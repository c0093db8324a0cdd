-- ===== src/Session/Turns/Ordered.antt =====
-- main.rs: what a session has written, against the frames that it has read, at each of its turns.
use fabricd.Base.{
  ℕ, String, ◌≡◌, refl, ap, ◌⊎◌, inl, inr, Bool, true, false, Option, none, some, List, [], ◌∷◌,
  ◌++◌, Result, ok, err,
}
use fabricd.Wire.{
  Toolkit, WireInit, WireRequest, init, call, drain, WireResponse, ack, init_error, reply, metrics,
  protocol_error,
}
use fabricd.Resources.Table.{ResolvedConfigs, ResolveError, resolve}
use fabricd.SaToken.Keys.{Jwt, Cache}
use fabricd.ClientAuth.{Authenticator, AuthReject, authenticate}
use fabricd.BackendSet.Payloads.{Decoders}
use fabricd.BackendSet.Drivers.{DriverSet}
use fabricd.Session.{Shared, Frame, request, broken, Process, Set, respond}
use fabricd.Session.Replies.{Answers, Transcript, respond-Answers}
use fabricd.Session.Turns.{
  Task, opening, serving, ended, write, resolved_turn, authenticated_turn, answer_turn, turn,
}

-- Every frame has its answer, in order.
abbrev pub AnswersAll : List Frame → List WireResponse → Type 0
AnswersAll [] [] = Unit
AnswersAll [] (r ∷ rs) = ⊥
AnswersAll (broken e ∷ frames) rs = ⊥
AnswersAll (request q ∷ frames) [] = ⊥
AnswersAll (request q ∷ frames) (r ∷ rs) = Answers q r × AnswersAll frames rs

AnswersAll-snoc :
    (frames : List Frame) (rs : List WireResponse) (q : WireRequest) (r : WireResponse)
    → AnswersAll frames rs
    → Answers q r
    → AnswersAll (frames ++ request q ∷ []) (rs ++ r ∷ [])
AnswersAll-snoc [] [] q r all one = (one, tt)
AnswersAll-snoc [] (x ∷ rs) q r all one = absurd all
AnswersAll-snoc (broken e ∷ frames) rs q r all one = absurd all
AnswersAll-snoc (request x ∷ frames) [] q r all one = absurd all
AnswersAll-snoc (request x ∷ frames) (y ∷ rs) q r (first, all) one =
    (first, AnswersAll-snoc frames rs q r all one)

AnswersAll-Transcript :
    (frames more : List Frame) (rs : List WireResponse)
    → AnswersAll frames rs
    → Transcript (frames ++ more) rs
AnswersAll-Transcript [] more [] all = tt
AnswersAll-Transcript [] more (r ∷ rs) all = absurd all
AnswersAll-Transcript (broken e ∷ frames) more rs all = absurd all
AnswersAll-Transcript (request q ∷ frames) more [] all = tt
AnswersAll-Transcript (request q ∷ frames) more (r ∷ rs) (first, all) =
    (first, AnswersAll-Transcript frames more rs all)

Transcript-append :
    (frames more : List Frame) (rs : List WireResponse)
    → Transcript frames rs
    → Transcript (frames ++ more) rs
Transcript-append frames more [] fits = tt
Transcript-append [] more (r ∷ rs) fits = absurd fits
Transcript-append (broken e ∷ frames) more (r ∷ rs) fits = absurd fits
Transcript-append (request q ∷ frames) more (r ∷ rs) (first, fits) =
    (first, Transcript-append frames more rs fits)

-- The one frame of a session that was turned away.
abbrev pub IsRefusal : WireResponse → Type 0
IsRefusal (init_error code message) = Unit
IsRefusal (protocol_error why) = Unit
IsRefusal ack = ⊥
IsRefusal (reply result) = ⊥
IsRefusal (metrics m) = ⊥

-- An opened session, which may have answered only the first of its requests when it ended.
pub record IsCutOff (heard : List Frame) (sent : List WireResponse) : Type 0 where
  pub init_frame : WireInit
  pub frames : List Frame
  pub answers : List WireResponse
  pub heard_is : heard ≡ request (init init_frame) ∷ frames
  pub sent_is : sent ≡ ack ∷ answers
  pub fits : Transcript frames answers

abbrev pub IsFinished : List Frame → List WireResponse → Type 0
IsFinished heard sent =
    (sent ≡ []) ⊎ (((r : WireResponse) × (sent ≡ r ∷ []) × IsRefusal r) ⊎ IsCutOff heard sent)

abbrev pub heard_of : Option Frame → List Frame
heard_of none = []
heard_of (some frame) = frame ∷ []

module _ {W Breaker : Type 0} (t : Toolkit) (upper : String → String) (d : DriverSet W Breaker)
    (decode : Decoders) (jwt : Jwt) (p : Process t upper d) where
  pub record IsServed (heard : List Frame) (i : WireInit) (sent : List WireResponse) : Type 0 where
    pub frames : List Frame
    pub answers : List WireResponse
    pub heard_is : heard ≡ request (init i) ∷ frames
    pub sent_is : sent ≡ ack ∷ answers
    pub all : AnswersAll frames answers

  -- The frames written so far fit the frames read so far: none before the first; in the loop, `Ack`
  -- and one answer to each request after the `Init`, in order; at the end nothing, one refusal, or
  -- `Ack` and the answers to the first of the requests.
  abbrev pub IsInOrder : List Frame → Task t upper d decode jwt p → Type 0
  IsInOrder heard opening = heard ≡ []
  IsInOrder heard (serving i set sent) = IsServed heard i sent
  IsInOrder heard (ended result sent) = IsFinished heard sent

  IsFinished-append :
      (heard more : List Frame) (sent : List WireResponse)
      → IsFinished heard sent
      → IsFinished (heard ++ more) sent
  IsFinished-append heard more sent (inl nothing) = inl nothing
  IsFinished-append heard more sent (inr (inl refused)) = inr (inl refused)
  IsFinished-append heard more sent (inr (inr cut)) = inr (
      inr (record {
        init_frame = cut.init_frame;
        frames = cut.frames ++ more;
        answers = cut.answers;
        heard_is = ap (λ h. h ++ more) cut.heard_is;
        sent_is = cut.sent_is;
        fits = Transcript-append cut.frames more cut.answers cut.fits;
      }))

  IsServed-IsFinished :
      (heard more : List Frame) (i : WireInit) (sent : List WireResponse)
      → IsServed heard i sent
      → IsFinished (heard ++ more) sent
  IsServed-IsFinished heard more i sent served = inr (
      inr (record {
        init_frame = i;
        frames = served.frames ++ more;
        answers = served.answers;
        heard_is = ap (λ h. h ++ more) served.heard_is;
        sent_is = served.sent_is;
        fits = AnswersAll-Transcript served.frames more served.answers served.all;
      }))

  refuse-IsInOrder :
      (heard : List Frame) (taken : Bool) (r : WireResponse) (result : Result String (Unit {0}))
      → IsRefusal r
      → IsInOrder heard (write t upper d decode jwt p taken r [] (ended result))
  refuse-IsInOrder heard true r result refuses = inr (inl (r, refl, refuses))
  refuse-IsInOrder heard false r result refuses = inl refl

  acknowledge-IsInOrder :
      (i : WireInit) (taken : Bool) (set : Set t upper d decode jwt p)
      → IsInOrder
          (request (init i) ∷ [])
          (write t upper d decode jwt p taken ack [] (serving i set))
  acknowledge-IsInOrder i true set = record {
    frames = [];
    answers = [];
    heard_is = refl;
    sent_is = refl;
    all = tt;
  }
  acknowledge-IsInOrder i false set = inl refl

  module _ (shared : Shared Breaker) (i : WireInit) (taken : Bool) (w : W) where
    resolved-IsInOrder :
        (r : Result ResolveError ResolvedConfigs)
        → IsInOrder
            (request (init i) ∷ [])
            (resolved_turn t upper d decode jwt p shared i taken r w).task
    unfolding resolved_turn
    resolved-IsInOrder (err e) = refuse-IsInOrder _ taken (init_error _ _) (ok tt) tt
    resolved-IsInOrder (ok c) = acknowledge-IsInOrder i taken _

    authenticated-IsInOrder :
        (r : Result AuthReject (Unit {0}))
        → IsInOrder
            (request (init i) ∷ [])
            (authenticated_turn t upper d decode jwt p shared i taken r w).task
    unfolding authenticated_turn
    authenticated-IsInOrder (err e) = refuse-IsInOrder _ taken (init_error _ _) (ok tt) tt
    authenticated-IsInOrder (ok _) = resolved-IsInOrder (resolve shared.table i)

  answer-IsInOrder :
      (heard : List Frame) (i : WireInit) (set : Set t upper d decode jwt p)
      (sent : List WireResponse) (taken : Bool) (q : WireRequest) (r : WireResponse)
      → IsServed heard i sent
      → Answers q r
      → IsInOrder
          (heard ++ request q ∷ [])
          (write t upper d decode jwt p taken r sent (serving i set))
  answer-IsInOrder heard i set sent true q r served one = record {
    frames = served.frames ++ request q ∷ [];
    answers = served.answers ++ r ∷ [];
    heard_is = ap (λ h. h ++ request q ∷ []) served.heard_is;
    sent_is = ap (λ s. s ++ r ∷ []) served.sent_is;
    all = AnswersAll-snoc served.frames served.answers q r served.all one;
  }
  answer-IsInOrder heard i set sent false q r served one =
      IsServed-IsFinished heard (request q ∷ []) i sent served

  -- A turn keeps a session in order.
  pub turn-IsInOrder :
      (shared : Shared Breaker) (a : Authenticator) (cache : Cache jwt.Key) (now : ℕ) (taken : Bool)
      (frame : Option Frame) (task : Task t upper d decode jwt p) (w : W) (heard : List Frame)
      → IsInOrder heard task
      → IsInOrder
          (heard ++ heard_of frame)
          (turn t upper d decode jwt p shared a cache now taken frame task w).task
  unfolding turn answer_turn
  turn-IsInOrder shared a cache now taken none opening w heard order = inl refl
  turn-IsInOrder shared a cache now taken (some (broken e)) opening w heard order = inl refl
  turn-IsInOrder shared a cache now taken (some (request (init i))) opening w heard order =
      rw order (authenticated-IsInOrder shared i taken w (authenticate t jwt cache now a i.token))
  turn-IsInOrder shared a cache now taken (some (request (call c))) opening w heard order =
      refuse-IsInOrder _ taken (protocol_error _) (ok tt) tt
  turn-IsInOrder shared a cache now taken (some (request drain)) opening w heard order =
      refuse-IsInOrder _ taken (protocol_error _) (ok tt) tt
  turn-IsInOrder shared a cache now taken none (serving i set sent) w heard order =
      IsServed-IsFinished heard [] i sent order
  turn-IsInOrder shared a cache now taken (some (broken e)) (serving i set sent) w heard order =
      IsServed-IsFinished heard (broken e ∷ []) i sent order
  turn-IsInOrder shared a cache now taken (some (request q)) (serving i set sent) w heard order =
      let (response, set', w') = respond t upper d decode jwt p q set w in
      answer-IsInOrder heard i set' sent taken q response order
        (respond-Answers t upper d decode jwt p q set w)
  turn-IsInOrder shared a cache now taken none (ended result sent) w heard order =
      IsFinished-append heard [] sent order
  turn-IsInOrder shared a cache now taken (some (broken e)) (ended result sent) w heard order =
      IsFinished-append heard (broken e ∷ []) sent order
  turn-IsInOrder shared a cache now taken (some (request q)) (ended result sent) w heard order =
      IsFinished-append heard (request q ∷ []) sent order
