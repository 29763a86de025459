-- ===== src/Store/Tracker.antt =====
-- The laws of the access tracker of store.py, and of the eviction that bounds it.
use kedis_python.Prelude.{
  inl, inr, ◌≡◌, refl, false, ◌||◌, List, [], ◌∷◌, ◌++◌, arith, if◌then◌else◌, Text, text_eq,
  text_eq_refl, eq_iff, Bool-cases,
}
use kedis_python.Store.State.{tracks, forget, move_to_end, track}

pub tracks-append :
    (ks js : List Text) (k : Text) → tracks (ks ++ js) k ≡ (tracks ks k || tracks js k)
unfolding tracks
tracks-append [] js k = refl
tracks-append (j ∷ ks) js k = ground (arith, tracks-append ks js k)

pub tracks-forget :
    (ks : List Text) (k j : Text)
    → tracks (forget ks k) j ≡ (if text_eq k j then false else tracks ks j)
unfolding tracks forget
tracks-forget [] k j = ground arith
tracks-forget (i ∷ ks) k j =
    ground (arith, tracks-forget ks k j, eq_iff i k, eq_iff k j, eq_iff i j)

tracks_single : (k j : Text) → tracks (k ∷ []) j ≡ text_eq k j
unfolding tracks
tracks_single k j = ground arith

pub tracks-track :
    (ks : List Text) (k j : Text) → tracks (track ks k) j ≡ (text_eq k j || tracks ks j)
unfolding track move_to_end
tracks-track ks k j = ground (
  arith,
  tracks-append (forget ks k) (k ∷ []) j,
  tracks-append ks (k ∷ []) j,
  tracks-forget ks k j,
  tracks_single k j,
)

-- No key stands twice.
abbrev pub IsUnique : List Text → Type 0
IsUnique [] = Unit
IsUnique (k ∷ ks) = (tracks ks k ≡ false) × IsUnique ks

pub IsUnique-forget : (ks : List Text) (k : Text) → IsUnique ks → IsUnique (forget ks k)
unfolding forget
IsUnique-forget [] k h = tt
IsUnique-forget (j ∷ ks) k h = elim (Bool-cases (text_eq j k)) [
  | inl e ↦ rw e (IsUnique-forget ks k h.1)
  | inr e ↦ rw e (ground (arith, e, tracks-forget ks k j, h.0), IsUnique-forget ks k h.1)
]

pub IsUnique-snoc :
    (ks : List Text) (k : Text) → tracks ks k ≡ false → IsUnique ks → IsUnique (ks ++ k ∷ [])
unfolding tracks
IsUnique-snoc [] k n h = (refl, tt)
IsUnique-snoc (j ∷ ks) k n h = (
  ground (arith, n, h.0, tracks-append ks (k ∷ []) j, eq_iff j k, eq_iff k j),
  IsUnique-snoc ks k (ground arith) h.1,
)

pub IsUnique-track : (ks : List Text) (k : Text) → IsUnique ks → IsUnique (track ks k)
unfolding track move_to_end
IsUnique-track ks k h = elim (Bool-cases (tracks ks k)) [
  | inl e ↦ rw e (
      IsUnique-snoc (forget ks k) k (ground (arith, tracks-forget ks k k, text_eq_refl k))
        (IsUnique-forget ks k h))
  | inr e ↦ rw e (IsUnique-snoc ks k e h)
]

-- A tracked key ends the order, behind keys that are not it.
pub track-snoc :
    (ks : List Text) (k : Text)
    → (js : List Text) × (track ks k ≡ js ++ k ∷ []) × (tracks js k ≡ false)
unfolding track move_to_end
track-snoc ks k = elim (Bool-cases (tracks ks k)) [
  | inl e ↦ (forget ks k, rw e refl, ground (arith, tracks-forget ks k k, text_eq_refl k))
  | inr e ↦ (ks, rw e refl, e)
]
