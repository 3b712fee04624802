-- ===== src/Client/Tries.antt =====
-- What the tries of the client come to.
use kuberhealthy.Prelude.{
  ◌≡◌, ◌≢◌, refl, sym, ap, ◌∙◌, ◌⊎◌, ◌==◌, inl, inr, ℕ, zero, suc, ◌<◌, false, Option-cases,
  Bool-cases, none, some, Text, is_empty, arith,
}
use kuberhealthy.Api.Results.{Err, Reply, reply, refuse}
use kuberhealthy.Report.{Report}
use kuberhealthy.Client.{
  ClientApi, ClientEnv, outcome, bad_status, get_variable, retry_post, send_report,
}

-- An answer with the status 200 or 400.
abbrev pub IsFinal : Reply ℕ → Type 0
IsFinal r = (r ≡ reply 200) ⊎ (r ≡ reply 400)

-- An error, or an answer with another status.
abbrev pub IsRejected : Reply ℕ → Type 0
IsRejected r = (r ≢ reply 200) × (r ≢ reply 400)

status-IsFinal : (status : ℕ) → outcome (reply status) ≡ none → IsFinal (reply status)
status-IsFinal status h = elim (Bool-cases (status == 200)) [
  | inl success ↦ inl (ap reply (ground (arith, success)))
  | inr other ↦ elim (Bool-cases (status == 400)) [
    | inl bad ↦ inr (ap reply (ground (arith, bad)))
    | inr none_of_both ↦ let h' = rw (other, none_of_both) at h in cc
  ]
]

outcome-IsFinal : (r : Reply ℕ) → outcome r ≡ none → IsFinal r
outcome-IsFinal (refuse e) h = cc
outcome-IsFinal (reply status) h = status-IsFinal status h

outcome-IsRejected : (r : Reply ℕ) (e : Err) → outcome r ≡ some e → IsRejected r
outcome-IsRejected r e h = (
  λ same. let h' : none ≡ some e = ap outcome (sym same) ∙ h in cc,
  λ same. let h' : none ≡ some e = ap outcome (sym same) ∙ h in cc,
)

module _ (api : ClientApi) (url run_uuid : Text) where
  -- From one body and world to another, so many tries one after the other, none with a final status,
  -- and each with what the one before has left of the body.
  pub data FailedTries : (body : Text) → api.World → ℕ → Text → api.World → Type 0 where
    no_tries : {body : Text} {w : api.World} → FailedTries body w zero body w
    one_more :
        {body b : Text} {w u : api.World} {k : ℕ}
        → IsRejected (api.post url run_uuid body w).0.0
        → FailedTries (api.post url run_uuid body w).0.1 (api.post url run_uuid body w).1 k b u
        → FailedTries body w (suc k) b u

  -- After fewer failed tries than there are, a try was answered with a final status, and nothing was
  -- sent after it.
  pub record Answered (tries : ℕ) (body : Text) (w end : api.World) : Type 0 where
    pub failed : ℕ
    pub left_body : Text
    pub left_world : api.World
    pub fewer : failed < tries
    pub tries_before : FailedTries body w failed left_body left_world
    pub final : IsFinal (api.post url run_uuid left_body left_world).0.0
    pub ended : end ≡ (api.post url run_uuid left_body left_world).1

  pub retry_post-Answered :
      (tries : ℕ) (last : Err) (body : Text) (w : api.World)
      → (retry_post api tries last url run_uuid body w).0 ≡ none
      → Answered tries body w (retry_post api tries last url run_uuid body w).1
  unfolding retry_post
  retry_post-Answered zero last body w = λ k. cc
  retry_post-Answered (suc tries) last body w =
      let o = api.post url run_uuid body w in
      elim (Option-cases (outcome o.0.0)) [
        | inl final ↦
            rw (final, retry_post)
              (λ k. record {
                failed = 0;
                left_body = body;
                left_world = w;
                fewer = omega arith;
                tries_before = no_tries;
                final = outcome-IsFinal o.0.0 final;
                ended = refl;
              })
        | inr (e, refused) ↦
            rw (refused, retry_post)
              (λ k.
                let rest = retry_post-Answered tries e o.0.1 o.1 k in
                record {
                  failed = suc rest.failed;
                  left_body = rest.left_body;
                  left_world = rest.left_world;
                  fewer = omega (arith, rest.fewer);
                  tries_before = one_more (outcome-IsRejected o.0.0 e refused) rest.tries_before;
                  final = rest.final;
                  ended = rest.ended;
                })
      ]

-- sendReport returns without an error only if the variables of the URL and of the UUID are set, and one
-- of the tries, which all go to that URL with that UUID, was answered with the status 200 or 400: the
-- tries before it failed, the first was sent the encoded report and each later one what was left of
-- it, and nothing was sent afterwards.
pub send_report-Answered :
    (api : ClientApi) (encode : Report → Text) (env : ClientEnv) (tries : ℕ) (s : Report)
    (w : api.World)
    → (send_report api encode env tries s w).0 ≡ none
    → (is_empty env.reporting_url ≡ false)
      × (is_empty env.run_uuid ≡ false)
      × Answered api env.reporting_url env.run_uuid tries
          (encode s)
          w
          (send_report api encode env tries s w).1
unfolding send_report get_variable
send_report-Answered api encode env tries s w = elim (Bool-cases (is_empty env.reporting_url)) [
  | inl blank ↦ rw blank (λ k. cc)
  | inr url ↦ elim (Bool-cases (is_empty env.run_uuid)) [
    | inl blank ↦ rw (url, blank) (λ k. cc)
    | inr uuid ↦
        rw (url, uuid)
          (λ k. (
            refl,
            refl,
            retry_post-Answered api env.reporting_url env.run_uuid tries bad_status (encode s) w k,
          ))
  ]
]
