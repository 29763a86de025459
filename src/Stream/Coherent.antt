-- ===== src/Stream/Coherent.antt =====
-- The two pending lists of a group never drift apart.
use kedis_python.Prelude.{
  ℕ, zero, suc, Bool, true, ◌&&◌, Option, none, some, List, [], ◌∷◌, ◌≡◌, refl, ◌∙◌, sym,
  if◌then◌else◌, Text, text_eq, ℤ, filter_by, All, arith, Bool-cases, Option-cases, inl, inr,
}
use kedis_python.Dict
use kedis_python.Dict.{Dict, text_key}
use kedis_python.Stream.Id.{StreamId, >>=-eq-ok, ok, id_key, id_eq_iff, id_ltb}
use kedis_python.Stream.Sorted.{IsSorted, contains, bisect_left}
use kedis_python.Stream.SortedLaws.{
  IsSorted-insort, contains-insort, IsSorted-delete_at, contains-delete_at,
}
use kedis_python.Stream.Group.{
  Group, Consumer, Pending, new_group, pel_set, pel_remove, owned_by, owner,
}
use kedis_python.Stream.Records.{
  ack_all, remove_all, kept_ids, delete_consumer, deliver, create_consumer,
}

-- The ID list ascends strictly and holds exactly the keys of the dict.
pub record IsCoherent (g : Group) : Type 0 where
  pub sorted : IsSorted g.pel_ids
  pub same_ids : (sid : StreamId) → Dict.has g.pel sid ≡ contains g.pel_ids sid

pub IsCoherent-new_group : (name : Text) (last : StreamId) → IsCoherent (new_group name last)
unfolding Dict.has contains
IsCoherent-new_group name last = record { sorted = tt; same_ids = λ sid. refl }

pub pel_set-IsCoherent :
    (g : Group) (sid : StreamId) (consumer : Text) (ms count : ℤ)
    → IsCoherent g
    → IsCoherent (pel_set g sid consumer ms count)
unfolding pel_set
pel_set-IsCoherent g sid consumer ms count h = elim (Bool-cases (Dict.has g.pel sid)) [
  | inl e ↦ record {
    sorted = rw e h.sorted;
    same_ids =
        λ z. rw (e, Dict.has-put) (ground (arith, h.same_ids z, h.same_ids sid, id_eq_iff sid z));
  }
  | inr e ↦ record {
    sorted = rw e (IsSorted-insort g.pel_ids sid (sym (h.same_ids sid) ∙ e) h.sorted);
    same_ids =
        λ z. rw (e, Dict.has-put, contains-insort g.pel_ids sid z) (ground (arith, h.same_ids z));
  }
]

pub pel_remove-IsCoherent :
    (g : Group) (sid : StreamId) → IsCoherent g → IsCoherent (pel_remove g sid).0
unfolding pel_remove
pel_remove-IsCoherent g sid h = elim (Bool-cases (Dict.has g.pel sid)) [
  | inr e ↦ rw e h
  | inl e ↦ rw e (record {
    sorted = IsSorted-delete_at (bisect_left g.pel_ids sid) g.pel_ids h.sorted;
    same_ids = λ z.
        rw (Dict.has-remove, contains-delete_at g.pel_ids sid z h.sorted (sym (h.same_ids sid) ∙ e))
          (ground (arith, h.same_ids z));
  })
]

pub ack_all-IsCoherent :
    (g : Group) (ids : List StreamId) → IsCoherent g → IsCoherent (ack_all g ids).0
unfolding ack_all
ack_all-IsCoherent g [] h = h
ack_all-IsCoherent g (sid ∷ ids) h =
    ack_all-IsCoherent (pel_remove g sid).0 ids (pel_remove-IsCoherent g sid h)

pub deliver-IsCoherent :
    (g : Group) (sid : StreamId) (cname : Text) (ms count : ℤ)
    → IsCoherent g
    → IsCoherent (deliver g sid cname ms count)
unfolding deliver
deliver-IsCoherent g sid cname ms count h =
    pel_set-IsCoherent _ sid cname ms count (record { sorted = h.sorted; same_ids = h.same_ids })

pub create_consumer-IsCoherent :
    (g : Group) (cname : Text) (seen active : ℤ)
    → IsCoherent g
    → IsCoherent (create_consumer g cname seen active).0
unfolding create_consumer
create_consumer-IsCoherent g cname seen active h =
    elim (Option-cases (Dict.get g.consumers cname)) [
      | inl e ↦ rw (e, create_consumer) (record { sorted = h.sorted; same_ids = h.same_ids })
      | inr (c, e) ↦ rw (e, create_consumer) (record { sorted = h.sorted; same_ids = h.same_ids })
    ]

contains-filter_by :
    (p : StreamId → Bool) (ids : List StreamId) (z : StreamId)
    → contains (filter_by p ids) z ≡ (p z && contains ids z)
unfolding contains filter_by
contains-filter_by p [] z = ground arith
contains-filter_by p (x ∷ ids) z = ground (arith, contains-filter_by p ids z, id_eq_iff x z)

All-filter_by {ℓ} :
    (P : StreamId → Type ℓ) (p : StreamId → Bool) (ids : List StreamId)
    → All P ids
    → All P (filter_by p ids)
unfolding filter_by
All-filter_by P p [] h = tt
All-filter_by P p (x ∷ ids) h = elim (Bool-cases (p x)) [
  | inl e ↦ rw e (h.0, All-filter_by P p ids h.1)
  | inr e ↦ rw e (All-filter_by P p ids h.1)
]

IsSorted-filter_by :
    (p : StreamId → Bool) (ids : List StreamId) → IsSorted ids → IsSorted (filter_by p ids)
unfolding filter_by
IsSorted-filter_by p [] h = tt
IsSorted-filter_by p (x ∷ ids) h = elim (Bool-cases (p x)) [
  | inl e ↦ rw e (All-filter_by (λ z. id_ltb x z ≡ true) p ids h.0, IsSorted-filter_by p ids h.1)
  | inr e ↦ rw e (IsSorted-filter_by p ids h.1)
]

has-remove_all :
    (pel : Dict StreamId Pending) (gone : List StreamId) (z : StreamId)
    → Dict.has (remove_all pel gone) z ≡ true
    → Dict.has pel z ≡ true
unfolding remove_all
has-remove_all pel [] z h = h
has-remove_all pel (sid ∷ gone) z h =
    let before = has-remove_all (Dict.remove pel sid) gone z h in
    ground (arith, before, Dict.has-remove pel sid z)

delete_consumer-lists :
    (g : Group) (gone : List StreamId) (consumers : Dict Text Consumer)
    → IsCoherent g
    → IsCoherent (record g {
      consumers = consumers;
      pel = remove_all g.pel gone;
      pel_ids = kept_ids gone (remove_all g.pel gone) g.pel_ids;
    })
delete_consumer-lists g [] consumers h =
    unfold remove_all in record { sorted = h.sorted; same_ids = h.same_ids }
delete_consumer-lists g (sid ∷ gone) consumers h =
    let pel = remove_all g.pel (sid ∷ gone) in
    record {
      sorted = IsSorted-filter_by (λ x. Dict.has pel x) g.pel_ids h.sorted;
      same_ids = λ z.
          rw (contains-filter_by (λ x. Dict.has pel x) g.pel_ids z)
            (ground (arith, h.same_ids z, has-remove_all g.pel (sid ∷ gone) z));
    }

pub delete_consumer-IsCoherent :
    (g g' : Group) (cname : Text) (n : ℕ)
    → IsCoherent g
    → delete_consumer g cname ≡ ok (g', n)
    → IsCoherent g'
unfolding delete_consumer
delete_consumer-IsCoherent g g' cname n h e =
    let (gone, p, q) = >>=-eq-ok (owned_by g.pel cname none g.pel_ids) _ e in
    let same : record g {
      consumers = Dict.remove g.consumers cname;
      pel = remove_all g.pel gone;
      pel_ids = kept_ids gone (remove_all g.pel gone) g.pel_ids;
    }
        ≡ g' =
      ground arith in
    rw same at (delete_consumer-lists g gone (Dict.remove g.consumers cname) h)

-- Where every listed ID is a key of the dict, no lookup of the loop fails.
owner_total :
    (pel : Dict StreamId Pending) (sid : StreamId)
    → Dict.has pel sid ≡ true
    → (name : Text) × (owner pel sid ≡ ok name)
owner_total pel sid h = elim (Option-cases (Dict.get pel sid)) [
  | inl e ↦ absurd (ground (arith, Dict.has-get pel sid))
  | inr (p, e) ↦ (p.consumer, rw (e, owner) refl)
]

pub owned_by_total :
    (pel : Dict StreamId Pending) (cname : Text) (room : Option ℕ) (ids : List StreamId)
    → All (λ x. Dict.has pel x ≡ true) ids
    → (owned : List StreamId) × (owned_by pel cname room ids ≡ ok owned)
unfolding owned_by
owned_by_total pel cname none [] h = ([], refl)
owned_by_total pel cname (some zero) [] h = ([], refl)
owned_by_total pel cname (some (suc n)) [] h = ([], refl)
owned_by_total pel cname none (x ∷ ids) h =
    let (name, e) = owner_total pel x h.0 in
    let (rest, r) = owned_by_total pel cname none ids h.1 in
    (if text_eq name cname then x ∷ rest else rest, rw (e, r) refl)
owned_by_total pel cname (some zero) (x ∷ ids) h = ([], refl)
owned_by_total pel cname (some (suc n)) (x ∷ ids) h =
    let (name, e) = owner_total pel x h.0 in
    let (rest, r) = owned_by_total pel cname (some n) ids h.1 in
    let (rest', r') = owned_by_total pel cname (some (suc n)) ids h.1 in
    elim (Bool-cases (text_eq name cname)) [
      | inl t ↦ (x ∷ rest, ground (arith, e, r))
      | inr t ↦ (rest', ground (arith, e, r'))
    ]
