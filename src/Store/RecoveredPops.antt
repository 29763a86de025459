-- ===== src/Store/RecoveredPops.antt =====
-- A record of LPOP or RPOP replays to what lpop and rpop of store.py did.
use kedis_python.Prelude.{
  inl, inr, ℕ, ◌≡◌, refl, ◌∙◌, Option, none, some, List, [], ◌∷◌, arith, Text, text_eq, codes,
}
use kedis_python.Dict
use kedis_python.Dict.{Dict, text_key, get-put}
use kedis_python.Store.State.{Store, deque, command, Reply, returns, log_operation, touch_write}
use kedis_python.Store.Containers.{hold, list_or_new, popped, split_last, lpop, rpop}
use kedis_python.Store.View.{HasRoom}
use kedis_python.Store.Replay.{
  Host, kind_of, is_lpop, is_rpop, replay_command, replay_record, replay_pop, drop_empty,
}
use kedis_python.Store.Alike.{hold-IsAlike, HasRoom-IsAlike}
use kedis_python.Store.Recovered.{
  KeepsUpper, evict_if_expired-awake, IsRecovered, IsRecovered-write, replay_record-named,
  then_do-kept, IsRecovered-empty, written-data, logged-data,
}
use kedis_python.Store.RecoveredLists.{
  drop_empty-cons, same_list, drop_empty-nil, list_or_new-returns, replay_pop-list,
}

module _ (host : Host) (keeps : KeepsUpper host) (start s : Store)
    (h : IsRecovered host start s) where
  popped-IsRecovered :
      (key value : Text) (left : List Text) (c : ℕ) (cs : Text)
      → HasRoom s
      → Dict.get s.expires key ≡ none
      → replay_record host h.image (command ((c ∷ cs) ∷ key ∷ []))
        ≡ drop_empty (touch_write (hold h.image key (deque left)) key) key
      → IsRecovered host start (popped s key left value (c ∷ cs)).0
  unfolding popped log_operation
  popped-IsRecovered key value [] c cs room timeless k =
      let x = command ((c ∷ cs) ∷ key ∷ []) in
      let roomy = HasRoom-IsAlike h.alike room in
      rw (logged-data s key (deque []) x room, popped)
        (IsRecovered-empty host start s (hold s key (deque [])) (hold h.image key (deque [])) key x
          h room refl h.is_live timeless (hold-IsAlike s h.image key (deque []) h.alike)
          (k ∙ drop_empty-nil _ key (written-data h.image key (deque []) roomy)))
  popped-IsRecovered key value (y ∷ ys) c cs room timeless k =
      let x = command ((c ∷ cs) ∷ key ∷ []) in
      let v = deque (y ∷ ys) in
      let roomy = HasRoom-IsAlike h.alike room in
      rw (logged-data s key v x room, popped)
        (IsRecovered-write host start s (hold s key v) (hold h.image key v) key x h room refl
          h.is_live (hold-IsAlike s h.image key v h.alike)
          (k ∙ drop_empty-cons _ key y ys (written-data h.image key v roomy)))

  replay_lpop :
      (key : Text)
      → replay_record host h.image (command (codes "LPOP" ∷ key ∷ []))
        ≡ replay_pop h.image key (λ x items. items)
  unfolding replay_command kind_of text_eq
  replay_lpop key =
      replay_record-named host h.image (codes "LPOP") is_lpop (key ∷ [])
        (keeps (codes "LPOP") (refl, (refl, (refl, (refl, tt))))) refl

  replay_rpop :
      (key : Text)
      → replay_record host h.image (command (codes "RPOP" ∷ key ∷ []))
        ≡ replay_pop h.image key (λ x items. (split_last x items).0)
  unfolding replay_command kind_of text_eq
  replay_rpop key =
      replay_record-named host h.image (codes "RPOP") is_rpop (key ∷ [])
        (keeps (codes "RPOP") (refl, (refl, (refl, (refl, tt))))) refl

  found_list :
      (key x : Text) (rest : List Text)
      → list_or_new (Dict.get s.data_map key) ≡ returns (x ∷ rest)
      → Dict.get h.image.data_map key ≡ some (deque (x ∷ rest))
  found_list key x rest e =
      elim (list_or_new-returns (Dict.get h.image.data_map key) (x ∷ rest)
        (same_list host keeps start s h key (x ∷ rest) e)) [
          | inl (absent, nil) ↦ absurd (ground (arith, nil))
          | inr held ↦ held
        ]

  lpop_items :
      (key : Text) (items : List Text)
      → HasRoom s
      → Dict.get s.expires key ≡ none
      → list_or_new (Dict.get s.data_map key) ≡ returns items
      → IsRecovered host start
          (elim items as (λ _. Store × Reply (Option Text)) [
            | [] ↦ (s, returns none)
            | x ∷ left ↦ popped s key left x (codes "LPOP")
          ]).0
  lpop_items key [] room timeless e = h
  lpop_items key (x ∷ rest) room timeless e =
      popped-IsRecovered key x rest b'L' (codes "POP") room timeless (
        replay_lpop key
        ∙ replay_pop-list h.image key x rest (λ x items. items) (found_list key x rest e))

  pub lpop-IsRecovered :
      (key : Text) (now : ℕ)
      → Dict.get s.expires key ≡ none
      → HasRoom s
      → IsRecovered host start (lpop s key now).0
  unfolding lpop
  lpop-IsRecovered key now timeless room =
      rw (evict_if_expired-awake s key now (rw timeless refl)) (
        then_do-kept (IsRecovered host start) s (list_or_new (Dict.get s.data_map key)) _ h
          (λ items e. lpop_items key items room timeless e))

  rpop_items :
      (key : Text) (items : List Text)
      → HasRoom s
      → Dict.get s.expires key ≡ none
      → list_or_new (Dict.get s.data_map key) ≡ returns items
      → IsRecovered host start
          (elim items as (λ _. Store × Reply (Option Text)) [
            | [] ↦ (s, returns none)
            | x ∷ rest ↦ popped s key (split_last x rest).0 (split_last x rest).1 (codes "RPOP")
          ]).0
  rpop_items key [] room timeless e = h
  rpop_items key (x ∷ rest) room timeless e =
      popped-IsRecovered key (split_last x rest).1 (split_last x rest).0 b'R' (codes "POP") room
        timeless
        (replay_rpop key
          ∙ replay_pop-list h.image key x rest (λ x items. (split_last x items).0)
              (found_list key x rest e))

  pub rpop-IsRecovered :
      (key : Text) (now : ℕ)
      → Dict.get s.expires key ≡ none
      → HasRoom s
      → IsRecovered host start (rpop s key now).0
  unfolding rpop
  rpop-IsRecovered key now timeless room =
      rw (evict_if_expired-awake s key now (rw timeless refl)) (
        then_do-kept (IsRecovered host start) s (list_or_new (Dict.get s.data_map key)) _ h
          (λ items e. rpop_items key items room timeless e))
