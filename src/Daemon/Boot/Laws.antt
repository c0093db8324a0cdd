-- ===== src/Daemon/Boot/Laws.antt =====
-- main.rs, `main`: which listeners a daemon that starts has.
use mathlib.Core.Path.{subst}
use fabricd.Base.{
  ◌≡◌, refl, sym, ap, ◌∙◌, Bool, true, false, ◌||◌, not, ◌&&◌, if◌then◌else◌, Option, none, some,
  String, ok, ok-inj, lift, pure, ◌>>=◌, resume-eq-ok, ReturnsIn, then-ReturnsIn, bind-ReturnsIn,
}
use fabricd.Wire.{Breakers}
use fabricd.SaToken.{ClientBuilder}
use fabricd.ClientAuth.{accept_all, default_auth, build, Built}
use fabricd.Daemon.Boot.{
  System, FabricdConfig, QuicListenerConfig, default_socket, is_some, or_else, Booted, QuicListener,
  uds_path, bind_uds, build_quic, build_quic_endpoint, bind_metrics, start_listeners,
  start_configured, start, load_config, shared_of, explicit_socket,
}

listens :
    {A : Type 0} (explicit : Option String) (quic : Option A)
    → (is_some (or_else explicit (if is_some quic then none else some default_socket))
        || is_some quic)
      ≡ true
listens none none = refl
listens none (some q) = refl
listens (some path) none = refl
listens (some path) (some q) = refl

one_of_two : (u q : Bool) → (u || q) ≡ true → (not u && not q) ≡ false
one_of_two true q h = refl
one_of_two false true h = refl
one_of_two false false h = cc

module _ {W : Type 0} (sys : System W) (breakers : Breakers W) (b : ClientBuilder) where
  bind_uds-is_some :
      (path : Option String)
      → ReturnsIn (λ uds. is_some uds ≡ is_some path) (bind_uds sys breakers b path)
  unfolding bind_uds
  bind_uds-is_some none w uds h = ap is_some (sym (ok-inj h))
  bind_uds-is_some (some path) w uds h =
      then-ReturnsIn (λ uds. is_some uds ≡ true) (λ w. (ok tt, sys.remove_file path w))
        (λ removed. sys.bind_unix path >>= λ listener. pure (some listener))
        (λ removed.
          then-ReturnsIn (λ uds. is_some uds ≡ true) (sys.bind_unix path)
            (λ listener. pure (some listener)) λ listener w uds h. ap is_some (sym (ok-inj h)))
        w uds h

  -- The QUIC listener is that of the config: none without one, and otherwise with the configured
  -- number of permits and the authenticator that the configured client auth builds.
  abbrev pub IsQuicOf : Option QuicListenerConfig → Option (QuicListener sys breakers b) → Type 0
  IsQuicOf none none = Unit
  IsQuicOf (some cfg) (some q) =
      (q.permits ≡ cfg.max_connections) × (build b cfg.auth ≡ ok (q.authenticator, q.refresh))
  IsQuicOf none (some q) = ⊥
  IsQuicOf (some cfg) none = ⊥

  build_quic-IsQuicOf :
      (cfg : Option QuicListenerConfig) → ReturnsIn (IsQuicOf cfg) (build_quic sys breakers b cfg)
  unfolding build_quic
  build_quic-IsQuicOf none w q h = subst (IsQuicOf none) (ok-inj h) tt
  build_quic-IsQuicOf (some cfg) w q h =
      then-ReturnsIn (IsQuicOf (some cfg)) (build_quic_endpoint sys breakers b cfg) _
        (λ endpoint.
          bind-ReturnsIn (λ built. build b cfg.auth ≡ ok built) (IsQuicOf (some cfg))
            (lift (build b cfg.auth)) _ (λ w built same. same)
            λ built same w q h. subst (IsQuicOf (some cfg)) (ok-inj h) (refl, same))
        w q h

  IsQuicOf-is_some :
      (cfg : Option QuicListenerConfig) (q : Option (QuicListener sys breakers b))
      → IsQuicOf cfg q
      → is_some cfg ≡ is_some q
  IsQuicOf-is_some none none is = refl
  IsQuicOf-is_some (some cfg) (some q) is = refl
  IsQuicOf-is_some none (some q) is = absurd is
  IsQuicOf-is_some (some cfg) none is = absurd is

  -- The daemon serves the config: its table, a counter at 0, a UDS listener that takes every client
  -- exactly where a socket is set or QUIC is not, the QUIC listener of the config, and at least one
  -- of the two.
  pub record IsBooted (config : FabricdConfig) (booted : Booted sys breakers b) : Type 0 where
    pub shared_is : booted.shared ≡ shared_of sys breakers b config
    pub uds_is :
        is_some booted.uds
        ≡ (is_some (explicit_socket sys breakers b config) || not (is_some config.quic))
    pub uds_takes_all : booted.uds_auth ≡ accept_all
    pub quic_is : IsQuicOf config.quic booted.quic
    pub some_listener : (is_some booted.uds || is_some booted.quic) ≡ true

  uds_path-is_some :
      (config : FabricdConfig)
      → is_some (uds_path sys breakers b config)
        ≡ (is_some (explicit_socket sys breakers b config) || not (is_some config.quic))
  unfolding uds_path
  uds_path-is_some config = by_cases (explicit_socket sys breakers b config) config.quic
    where
      by_cases :
          (explicit : Option String) (quic : Option QuicListenerConfig)
          → is_some (or_else explicit (if is_some quic then none else some default_socket))
            ≡ (is_some explicit || not (is_some quic))
      by_cases none none = refl
      by_cases none (some q) = refl
      by_cases (some path) quic = refl

  build_default-accept_all :
      (built : Built b) → build b default_auth ≡ ok built → built.0 ≡ accept_all
  unfolding build
  build_default-accept_all built h = ap (λ r. r.0) (sym (ok-inj h))

  start_listeners-IsBooted :
      (config : FabricdConfig) → ReturnsIn (IsBooted config) (start_listeners sys breakers b config)
  unfolding start_listeners uds_path
  start_listeners-IsBooted config =
      bind-ReturnsIn (λ uds. is_some uds ≡ is_some (uds_path sys breakers b config))
        (IsBooted config) (bind_uds sys breakers b (uds_path sys breakers b config)) _
        (bind_uds-is_some (uds_path sys breakers b config))
        λ uds bound.
          bind-ReturnsIn (λ built. built.0 ≡ accept_all) (IsBooted config)
            (lift (build b default_auth)) _ (λ w. build_default-accept_all)
            λ built takes_all.
              bind-ReturnsIn (IsQuicOf config.quic) (IsBooted config)
                (build_quic sys breakers b config.quic) _ (build_quic-IsQuicOf config.quic)
                λ quic quic_is.
                  then-ReturnsIn (IsBooted config)
                    (bind_metrics sys breakers b config.metrics_listen) _
                    λ metrics w booted h. subst (IsBooted config) (ok-inj h) (record {
                      shared_is = refl;
                      uds_is = bound ∙ uds_path-is_some config;
                      uds_takes_all = takes_all;
                      quic_is = quic_is;
                      some_listener =
                          ap (λ x. x || is_some quic) bound
                          ∙ ap (λ x. is_some (uds_path sys breakers b config) || x)
                              (sym (IsQuicOf-is_some config.quic quic quic_is))
                          ∙ listens (explicit_socket sys breakers b config) config.quic;
                    })

  start_configured-start_listeners :
      (config : FabricdConfig) (w : W)
      → start_configured sys breakers b config w ≡ start_listeners sys breakers b config w
  unfolding start_configured uds_path
  start_configured-start_listeners config w =
      rw
        (one_of_two (is_some (uds_path sys breakers b config)) (is_some config.quic)
          (listens (explicit_socket sys breakers b config) config.quic))
        refl

  pub start-IsBooted :
      (w : W) (booted : Booted sys breakers b)
      → (start sys breakers b w).0 ≡ ok booted
      → (config : FabricdConfig) × ((load_config sys breakers b w).0 ≡ ok config)
        × IsBooted config booted
        × (start_configured sys breakers b config w ≡ start_listeners sys breakers b config w)
  unfolding start
  start-IsBooted w booted h =
      let (config, loaded, rest) =
        resume-eq-ok (load_config sys breakers b w) (start_configured sys breakers b) h in
      (
        config,
        loaded,
        start_listeners-IsBooted config (load_config sys breakers b w).1 booted (
            ap (λ r. r.0)
              (sym (start_configured-start_listeners config (load_config sys breakers b w).1))
            ∙ rest),
        start_configured-start_listeners config w,
      )
