-- ===== src/Scaling/Laws.antt =====
-- When the autoscaler is said to work.
use control_deck.Prelude.{ℕ, Bool, true, false, ◌≡◌, refl, Option, none, some, Bool-cases, inl, inr}
use control_deck.Types.{Text}
use control_deck.Scaling.{
  ScalingState, ScaledObject, Hpa, is_inactive, scaling_active, in_namespace, get_scaling_status,
}

-- All of what an active autoscaler needs.
pub record IsActive (in_cluster : Bool) (namespace : Option Text) (so : Option ScaledObject)
    (hpa : Option Hpa) : Type 0 where
  pub deployed : in_cluster ≡ true
  pub namespace_name : Text
  pub named : namespace ≡ some namespace_name
  pub object : ScaledObject
  pub created : so ≡ some object
  pub scaler : Hpa
  pub reconciled : hpa ≡ some scaler
  pub readable : is_inactive (scaling_active scaler) ≡ false

module _ (number : Text → Option ℕ) (backend : Text) where
  active_needs :
      (namespace : Option Text) (so : Option ScaledObject) (hpa : Option Hpa)
      → (in_namespace number backend namespace so hpa).state ≡ ScalingState.active
      → IsActive true namespace so hpa
  active_needs none so hpa e = cc
  active_needs (some n) none hpa e = cc
  active_needs (some n) (some o) none e = cc
  active_needs (some n) (some o) (some h) e = elim (Bool-cases (is_inactive (scaling_active h))) [
    | inl broken ↦ let clash = rw broken at e in cc
    | inr readable ↦ record {
      deployed = refl;
      namespace_name = n;
      named = refl;
      object = o;
      created = refl;
      scaler = h;
      reconciled = refl;
      readable = readable;
    }
  ]

  -- The autoscaler is said to be active only in a cluster whose namespace is known, with a ScaledObject
  -- and an HPA that the router can read, and where no condition says that the metric cannot be read.
  pub get_scaling_status-active :
      (in_cluster : Bool) (namespace : Option Text) (so : Option ScaledObject) (hpa : Option Hpa)
      → (get_scaling_status number in_cluster backend namespace so hpa).state ≡ ScalingState.active
      → IsActive in_cluster namespace so hpa
  unfolding get_scaling_status
  get_scaling_status-active true namespace so hpa e = active_needs namespace so hpa e
  get_scaling_status-active false namespace so hpa e = cc
