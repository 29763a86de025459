-- ===== src/Stream/Applied.antt =====
-- `apply_group_record` keeps every group coherent, and never fails on the two lists having drifted.
use kedis_python.Prelude.{
  ℕ, true, Option, none, some, List, [], ◌∷◌, ◌≡◌, ◌≢◌, refl, ap, ◌∙◌, Text, text_eq, All, arith,
  Bool-cases, inl, inr,
}
use kedis_python.Dict
use kedis_python.Dict.{Dict, text_key}
use kedis_python.Stream.Id.{
  StreamId, Result, ok, err, Error, ◌>>=◌, id_key, id_eq_iff, key_error, parse_id, check_name,
  bad_record, to_u64, seq_or, partition,
}
use kedis_python.Stream.Sorted.{contains}
use kedis_python.Stream.Group.{Group, new_group}
use kedis_python.Stream.Entries.{Stream}
use kedis_python.Stream.Records.{
  Kind, xgroup, xgdel, xgcons, xgcdel, xgpel, xglast, xack, kind_of, to_int, group_of, put_group,
  parse_ids, delete_consumer, create_or_move, apply_kind, apply_group_record,
}
use kedis_python.Stream.Coherent.{
  IsCoherent, IsCoherent-new_group, ack_all-IsCoherent, deliver-IsCoherent,
  create_consumer-IsCoherent, delete_consumer-IsCoherent, owned_by_total,
}

-- Every group of the stream is coherent.
pub record AreCoherent (s : Stream) : Type 0 where
  pub at : (name : Text) (g : Group) → Dict.get s.groups name ≡ some g → IsCoherent g

-- The outcome of a record: a stream whose groups are coherent, or an error other than KeyError.
pub data IsSound : Result (Stream × ℕ) → Type 0 where
  done : (s : Stream) (n : ℕ) → AreCoherent s → IsSound (ok (s, n))
  refused : (e : Error) → e ≢ key_error → IsSound (err e)

put_group-AreCoherent :
    (s : Stream) (name : Text) (g : Group)
    → AreCoherent s
    → IsCoherent g
    → AreCoherent (put_group s name g)
unfolding put_group
put_group-AreCoherent s name g h c = record {
  at = λ j g' e. elim (Bool-cases (text_eq name j)) [
    | inl t ↦ let same : g ≡ g' = ground (arith, Dict.get-put s.groups name j g) in rw same at c
    | inr t ↦ h.at j g' (ground (arith, Dict.get-put s.groups name j g))
  ];
}

remove-AreCoherent :
    (s : Stream) (name : Text)
    → AreCoherent s
    → AreCoherent (record s { groups = Dict.remove s.groups name })
remove-AreCoherent s name h = record {
  at = λ j g e. h.at j g (ground (arith, Dict.get-remove s.groups name j));
}

-- A step in front of sound steps.
bind-IsSound {ℓ} :
    {A : Type ℓ} (m : Result A) (f : A → Result (Stream × ℕ))
    → m ≢ err key_error
    → ((a : A) → m ≡ ok a → IsSound (f a))
    → IsSound (m >>= f)
bind-IsSound (ok a) f h k = k a refl
bind-IsSound (err e) f h k = refused e (λ same. h (ap err same))

pub to_u64_sound : (t : Text) → to_u64 t ≢ err key_error
unfolding to_u64
to_u64_sound [] = ground arith
to_u64_sound (c ∷ cs) = ground arith

pub seq_or_sound : (d : ℕ) (o : Option Text) → seq_or d o ≢ err key_error
seq_or_sound d none = ground arith
seq_or_sound d (some t) = to_u64_sound t

pub parse_id_sound : (t : Text) → parse_id t ≢ err key_error
unfolding parse_id
parse_id_sound t = λ h. ground (arith, to_u64_sound (partition t).0, seq_or_sound 0 (partition t).1)

pub parse_ids_sound : (ts : List Text) → parse_ids ts ≢ err key_error
unfolding parse_ids
parse_ids_sound [] = ground arith
parse_ids_sound (t ∷ ts) = λ h. ground (arith, parse_id_sound t, parse_ids_sound ts)

pub check_name_sound : (t : Text) → check_name t ≢ err key_error
unfolding check_name
check_name_sound [] = ground arith
check_name_sound (c ∷ t) = ground arith

to_int_sound : (t : Text) → to_int t ≢ err key_error
unfolding to_int
to_int_sound t = ground arith

group_of_sound : (s : Stream) (name : Text) → group_of s name ≢ err key_error
unfolding group_of
group_of_sound s name = ground arith

group_of-IsCoherent :
    (s : Stream) (name : Text) (g : Group) → AreCoherent s → group_of s name ≡ ok g → IsCoherent g
unfolding group_of
group_of-IsCoherent s name g h e = h.at name g (ground arith)

keys-found :
    (g : Group) (ids : List StreamId)
    → ((z : StreamId) → contains ids z ≡ true → contains g.pel_ids z ≡ true)
    → IsCoherent g
    → All (λ x. Dict.has g.pel x ≡ true) ids
keys-found g [] sub h = tt
keys-found g (x ∷ ids) sub h = (
  h.same_ids x ∙ sub x (unfold contains in ground (arith, id_eq_iff x x)),
  keys-found g ids (λ z e. sub z (unfold contains in ground arith)) h,
)

delete_consumer_sound :
    (g : Group) (cname : Text) → IsCoherent g → delete_consumer g cname ≢ err key_error
unfolding delete_consumer
delete_consumer_sound g cname h =
    let (owned, e) =
      owned_by_total g.pel cname none g.pel_ids (keys-found g g.pel_ids (λ z p. p) h) in
    rw e (ground arith)

create_or_move-IsSound :
    (s : Stream) (name : Text) (last : StreamId)
    → AreCoherent s
    → IsSound (create_or_move s name last)
create_or_move-IsSound s name last h = by_group (Dict.get s.groups name) refl
  where
    by_group :
        (o : Option Group) → Dict.get s.groups name ≡ o → IsSound (create_or_move s name last)
    by_group none e =
        unfold create_or_move in
        rw (e, create_or_move)
          (bind-IsSound (check_name name) _ (check_name_sound name) (λ checked _. done _ 1 (
            put_group-AreCoherent s name (new_group checked last) h
              (IsCoherent-new_group checked last))))
    by_group (some g) e =
        let c = h.at name g e in
        unfold create_or_move in
        rw (e, create_or_move)
          (done _ 1 (
            put_group-AreCoherent s name (record g { last_id = last }) h
              (record { sorted = c.sorted; same_ids = c.same_ids })))

module _ (s : Stream) (name : Text) (h : AreCoherent s) where
  -- A record on a group that must exist, whose rest is sound on a coherent group.
  on_group :
      (f : Group → Result (Stream × ℕ))
      → ((g : Group) → IsCoherent g → IsSound (f g))
      → IsSound (group_of s name >>= f)
  on_group f k =
      bind-IsSound (group_of s name) f (group_of_sound s name)
        (λ g e. k g (group_of-IsCoherent s name g h e))

  put_done : (g : Group) (n : ℕ) → IsCoherent g → IsSound (ok (put_group s name g, n))
  put_done g n c = done _ n (put_group-AreCoherent s name g h c)

  xgcons-IsSound :
      (consumer seen active : Text)
      → IsSound (apply_kind s xgcons (name ∷ consumer ∷ seen ∷ active ∷ []))
  unfolding apply_kind
  xgcons-IsSound consumer seen active = on_group _ λ g c.
      bind-IsSound (check_name consumer) _ (check_name_sound consumer) λ cname _.
        bind-IsSound (to_int seen) _ (to_int_sound seen) λ seen_ms _.
          bind-IsSound (to_int active) _ (to_int_sound active)
            λ active_ms _. put_done _ _ (create_consumer-IsCoherent g cname seen_ms active_ms c)

  xgcdel-IsSound : (consumer : Text) → IsSound (apply_kind s xgcdel (name ∷ consumer ∷ []))
  unfolding apply_kind
  xgcdel-IsSound consumer = on_group _ λ g c.
      bind-IsSound (check_name consumer) _ (check_name_sound consumer) λ cname _.
        bind-IsSound (delete_consumer g cname) _ (delete_consumer_sound g cname c)
          λ r e. put_done r.0 r.1 (delete_consumer-IsCoherent g r.0 cname r.1 c e)

  xgpel-IsSound :
      (consumer id delivered count : Text)
      → IsSound (apply_kind s xgpel (name ∷ consumer ∷ id ∷ delivered ∷ count ∷ []))
  unfolding apply_kind
  xgpel-IsSound consumer id delivered count = on_group _ λ g c.
      bind-IsSound (check_name consumer) _ (check_name_sound consumer) λ cname _.
        bind-IsSound (parse_id id) _ (parse_id_sound id) λ sid _.
          bind-IsSound (to_int delivered) _ (to_int_sound delivered) λ ms _.
            bind-IsSound (to_int count) _ (to_int_sound count)
              λ tries _. put_done _ 1 (deliver-IsCoherent g sid cname ms tries c)

  xglast-IsSound : (id : Text) → IsSound (apply_kind s xglast (name ∷ id ∷ []))
  unfolding apply_kind
  xglast-IsSound id = on_group _ λ g c. bind-IsSound (parse_id id) _ (parse_id_sound id) λ last _.
      put_done (record g { last_id = last }) 1 (record { sorted = c.sorted; same_ids = c.same_ids })

  xack-IsSound : (t : Text) (ts : List Text) → IsSound (apply_kind s xack (name ∷ t ∷ ts))
  unfolding apply_kind
  xack-IsSound t ts = on_group _ λ g c.
      bind-IsSound (parse_ids (t ∷ ts)) _ (parse_ids_sound (t ∷ ts))
        λ ids _. put_done _ _ (ack_all-IsCoherent g ids c)

  xgroup-IsSound : (id : Text) → IsSound (apply_kind s xgroup (name ∷ id ∷ []))
  unfolding apply_kind
  xgroup-IsSound id =
      bind-IsSound (parse_id id) _ (parse_id_sound id)
        λ last _. create_or_move-IsSound s name last h

bad_record_sound : bad_record ≢ key_error
bad_record_sound = ground arith

apply_kind-IsSound :
    (s : Stream) (k : Kind) (args : List Text) → AreCoherent s → IsSound (apply_kind s k args)
apply_kind-IsSound s xgroup (name ∷ id ∷ []) h = xgroup-IsSound s name h id
apply_kind-IsSound s xgdel (name ∷ []) h =
    unfold apply_kind in done _ _ (remove-AreCoherent s name h)
apply_kind-IsSound s xglast (name ∷ id ∷ []) h = xglast-IsSound s name h id
apply_kind-IsSound s xack (name ∷ t ∷ ts) h = xack-IsSound s name h t ts
apply_kind-IsSound s xgcons (name ∷ consumer ∷ seen ∷ active ∷ []) h =
    xgcons-IsSound s name h consumer seen active
apply_kind-IsSound s xgcdel (name ∷ consumer ∷ []) h = xgcdel-IsSound s name h consumer
apply_kind-IsSound s xgpel (name ∷ consumer ∷ id ∷ delivered ∷ count ∷ []) h =
    xgpel-IsSound s name h consumer id delivered count
apply_kind-IsSound s k args h = unfold apply_kind in refused bad_record bad_record_sound

-- A group record, of any kind and with any arguments, applied to a stream in which the ID list of
-- every group ascends strictly and holds exactly the keys of its pending dict: either it succeeds
-- and all groups are so again, or it raises an error that is not the KeyError of drifted lists.
pub apply_group_record-IsSound :
    (s : Stream) (kind : Text) (args : List Text)
    → AreCoherent s
    → IsSound (apply_group_record s kind args)
apply_group_record-IsSound s kind args h = by_kind (kind_of kind) refl
  where
    by_kind : (o : Option Kind) → kind_of kind ≡ o → IsSound (apply_group_record s kind args)
    by_kind none e =
        unfold apply_group_record in
        rw (e, apply_group_record) (refused bad_record bad_record_sound)
    by_kind (some k) e =
        unfold apply_group_record in rw (e, apply_group_record) (apply_kind-IsSound s k args h)
