-- ===== src/Tests/Identity.antt =====
-- auth.rs of the backends over an identity provider that knows one token.
use fabricd.Base.{
  ℕ, suc, String, ◌≡◌, refl, none, some, [], ◌∷◌, ◌==◌, if◌then◌else◌, ok, false, trim_end_slashes,
}
use fabricd.Json.{Value, members, Codec}
use fabricd.Resources.Configs.{AuthConfig}
use fabricd.Oidc.Replies.{Endpoints, string_field, parse_claims, ok_claims_json}
use fabricd.Oidc.Client.{Reqwest, Memo, empty_memo}
use fabricd.Oidc.{
  AuthBackend, send, endpoints_of, fetch_discovery, discover, resolve_userinfo, do_introspect,
  call_auth_backend, introspect_outcome, resolve_introspect,
}
use fabricd.Oidc.Laws.{UserInfoAnswer, call_auth_backend-user_info, call_auth_backend-records}
use fabricd.Oidc.Discovery.{call_all, discover_once}
use fabricd.Tests.Fixtures.{list_log, list_log-IsLog}

-- A request is its url, its body where it has one, and its token; the world counts the requests. An
-- unknown token is answered by 401.
abbrev pub provider : Reqwest ℕ
provider = record {
  Client = Unit;
  RequestBuilder = String × String;
  Response = ℕ × String;
  Error = String;
  error_text = λ e. e;
  build = λ timeout_ms w. (ok tt, w);
  get = λ client url. (url, "");
  post = λ client url. (url, "good");
  bearer_auth = λ token request. (request.0, token);
  basic_auth = λ id secret request. request;
  header = λ name value request. request;
  body = λ text request. request;
  send = λ request w. (ok (if request.1 == "bad" then (401, "") else (200, request.0)), suc w);
  status = λ response. response.0;
  text = λ response w. (ok response.1, w);
  host_of = λ url. some "idp";
  percent_encode = λ s. s;
  elapsed_us = λ start stop. 7;
}

-- Every body reads as a discovery document.
abbrev document : Value
document = Value.object (
    members (
      ("userinfo_endpoint", Value.string "https://idp/userinfo")
      ∷ ("introspection_endpoint", Value.string "https://idp/introspect")
      ∷ []))

abbrev pub document_codec : Codec
document_codec = record {
  Error = String;
  error_text = λ e. e;
  from_str = λ s. ok document;
  to_string = λ v. ok "{..}";
}

abbrev idp : AuthConfig
idp = record {
  issuer = "https://idp/";
  userinfo_url = none;
  introspect_url = none;
  client_id = "fabricd";
  client_secret = "pw";
  timeout_ms = 10000;
}

abbrev idp_backend : AuthBackend provider document_codec list_log
idp_backend = record {
  state = record { client = tt; config = idp };
  discovery = empty_memo;
  host = "idp";
  metrics = [];
}

abbrev found : Endpoints
found = record {
  userinfo = some "https://idp/userinfo";
  introspect = some "https://idp/introspect";
}

abbrev filled : Memo
filled = record { value = some found; poisoned = false }

first_discovery :
    discover provider document_codec list_log idp_backend.state (empty_memo, 0)
    ≡ (ok found, (filled, 1))
unfolding discover fetch_discovery send endpoints_of string_field trim_end_slashes
first_discovery = refl

discover_once_example :
    let after =
      (call_all provider document_codec list_log
        (("user_info", "good") ∷ ("introspect", "bad") ∷ [])
        (record idp_backend { discovery = filled })
        1).0 in
    discover provider document_codec list_log after.state (after.discovery, 9)
    ≡ (ok found, (after.discovery, 9))
discover_once_example =
    discover_once provider document_codec list_log idp_backend 0 1 9 filled found
      (("user_info", "good") ∷ ("introspect", "bad") ∷ []) refl first_discovery

resolved :
    resolve_userinfo provider document_codec list_log idp_backend.state (empty_memo, 0)
    ≡ (ok "https://idp/userinfo", (filled, 1))
unfolding resolve_userinfo discover fetch_discovery send endpoints_of string_field trim_end_slashes
resolved = refl

rejected :
    send provider document_codec list_log ("https://idp/userinfo", "bad") 1 ≡ (ok (401, ""), 2)
unfolding send
rejected = refl

call_auth_backend-user_info_example :
    let (r, after, end) =
      call_auth_backend provider document_codec list_log "user_info" "bad" idp_backend 0 in
    UserInfoAnswer document_codec 401 "" r × (end ≡ 2)
call_auth_backend-user_info_example =
    call_auth_backend-user_info provider document_codec list_log idp_backend "bad"
      "https://idp/userinfo" "" 401 filled 0 1 2 resolved rejected

call_auth_backend-records_example :
    (call_auth_backend provider document_codec list_log "user_info" "bad" idp_backend 0).1.host
    ≡ "idp"
call_auth_backend-records_example =
    (call_auth_backend-records provider document_codec list_log list_log-IsLog "user_info" "bad"
      idp_backend 0).2

introspected :
    (do_introspect provider document_codec list_log idp_backend.state "t" (empty_memo, 0)).0
    ≡ ok (record { json = "{..}"; status = 200 })
unfolding do_introspect resolve_introspect discover fetch_discovery send endpoints_of string_field
    trim_end_slashes introspect_outcome parse_claims ok_claims_json
introspected = refl
