-- ===== src/Resources/Rogue.antt =====
-- Which khstates the khstate reaper deletes.
use kuberhealthy.Prelude.{
  ◌≡◌, ◌≢◌, inl, inr, true, false, Bool-cases, List, [], ◌∷◌, any, All, text_eq_iff, arith,
}
use kuberhealthy.Api.Results.{reply}
use kuberhealthy.Api.Types.{KhState}
use kuberhealthy.Resources.{
  Named, StatesApi, is_owner, is_rogue, remove_rogues, reap_kh_state_resources,
}

abbrev pub IsOther : KhState → Named → Type 0
IsOther s n = n.name ≡ s.name → n.namespace ≢ s.namespace

-- No listed khcheck and no listed khjob has the khstate's name and namespace.
pub record HasNoOwner (checks jobs : List Named) (s : KhState) : Type 0 where
  pub no_check : All (IsOther s) checks
  pub no_job : All (IsOther s) jobs

none-owns : (s : KhState) (ns : List Named) → any (is_owner s) ns ≡ false → All (IsOther s) ns
none-owns s [] h = tt
none-owns s (n ∷ ns) h = (
  (λ a b. ground (arith, h, a, b, text_eq_iff n.name s.name, text_eq_iff n.namespace s.namespace)),
  none-owns s ns (ground (arith, h)),
)

is_rogue-HasNoOwner :
    (checks jobs : List Named) (s : KhState)
    → is_rogue checks jobs s ≡ true
    → HasNoOwner checks jobs s
unfolding is_rogue
is_rogue-HasNoOwner checks jobs s h = record {
  no_check = none-owns s checks (ground (arith, h));
  no_job = none-owns s jobs (ground (arith, h));
}

module _ (api : StatesApi) (checks jobs : List Named) (P : api.World → Type 0)
    (step : (s : KhState) (u : api.World)
      → HasNoOwner checks jobs s
      → P u
      → P (api.delete_state s u)) where
  remove_rogues-keeps :
      (states : List KhState) (w : api.World) → P w → P (remove_rogues api checks jobs states w)
  unfolding remove_rogues
  remove_rogues-keeps [] w p = p
  remove_rogues-keeps (s ∷ states) w p = elim (Bool-cases (is_rogue checks jobs s)) [
    | inl rogue ↦ rw rogue (
        remove_rogues-keeps states (api.delete_state s w)
          (step s w (is_rogue-HasNoOwner checks jobs s rogue) p))
    | inr owned ↦ rw owned (remove_rogues-keeps states w p)
  ]

-- The khstate reaper deletes only khstates without an owner: if the three listings succeed, a property
-- of the world that holds after them and that deleting a khstate preserves, when no listed khcheck and
-- no listed khjob has its name and namespace, holds at the end.
pub reap_kh_state_resources-only_rogue :
    (api : StatesApi) (P : api.World → Type 0) (states : List KhState) (checks jobs : List Named)
    (w w₁ w₂ w₃ : api.World)
    → api.list_states w ≡ (reply states, w₁)
    → api.list_checks w₁ ≡ (reply checks, w₂)
    → api.list_jobs w₂ ≡ (reply jobs, w₃)
    → ((s : KhState) (u : api.World) → HasNoOwner checks jobs s → P u → P (api.delete_state s u))
    → P w₃
    → P (reap_kh_state_resources api w).1
unfolding reap_kh_state_resources
reap_kh_state_resources-only_rogue api P states checks jobs w w₁ w₂ w₃ e₁ e₂ e₃ step p =
    rw (e₁, e₂, e₃) (remove_rogues-keeps api checks jobs P step states w₃ p)
