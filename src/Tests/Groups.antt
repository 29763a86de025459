-- ===== src/Tests/Groups.antt =====
-- The consumer group commands of store.py at a concrete session.
use kedis_python.Prelude.{◌≡◌, refl, false, [], ◌∷◌, arith, text_eq, codes}
use kedis_python.Dict
use kedis_python.Decimal
use kedis_python.PyInt
use kedis_python.Stream.Entries
use kedis_python.Stream.Group
use kedis_python.Stream.Id as Ids
use kedis_python.Stream.Records as Stream_records
use kedis_python.Store.State
use kedis_python.Store.State.{Store, command, returns}
use kedis_python.Store.Command.{empty_store}
use kedis_python.Store.Streams.{
  stream_at, stream_or_none, raising, xadd, xadd_at, xadd_to, added, log_entry, all_bare,
  optional_id, trim_added, format_all,
}
use kedis_python.Store.Replay.{replayed, replay}
use kedis_python.Store.Recovery.{fresh, recovering_store}
use kedis_python.Store.Groups
use kedis_python.Store.GroupCommands.{create, createconsumer, acknowledge, apply, execute_group}
use kedis_python.Store.GroupRecovery.{
  untrimmed, add_call, LoggedGroups, began, group_call, replay-group_log,
}
use kedis_python.Tests.Recovery.{machine, ascii_upper-KeepsUpper}

abbrev filled : Store
filled =
    (xadd (empty_store 8) (codes "k") (codes "f" ∷ codes "v" ∷ []) (untrimmed (codes "5-1") false) 4
      9).0

abbrev made : Store
made = (execute_group filled (codes "k") (create (codes "g") (codes "0-1") false) 5 5).0

abbrev served : Store
served = (execute_group made (codes "k") (createconsumer (codes "g") (codes "c") 9) 6 7).0

abbrev delivered : Store
delivered =
    (execute_group served (codes "k")
      (apply (codes "XGPEL") (codes "g") (codes "c" ∷ codes "5-1" ∷ codes "9" ∷ codes "1" ∷ [])) 8
      8).0

abbrev acknowledged : Store
acknowledged =
    (execute_group delivered (codes "k") (acknowledge (codes "g") (codes "5-1" ∷ [])) 8 8).0

group_run : Unit {0}
unfolding execute_group xadd xadd_at xadd_to added log_entry all_bare optional_id trim_added
    Entries.add Entries.next_id Entries.before_auto_seq Entries.explicit_id Entries.appended
    Ids.all_graphic Groups.xgroup_create Groups.xgroup_createconsumer Groups.xgapply Groups.xack
    Groups.acked Groups.owned Groups.group_or_none Stream_records.parse_ids Stream_records.put_group
    Stream_records.group_of Stream_records.to_int PyInt.int_of Stream_records.deliver Group.pel_set
    Stream_records.create_consumer format_all Group.pel_remove Stream_records.ack_all
    Groups.creatable Groups.cursor Groups.commit_record Groups.apply_group_record
    Groups.stream_of_record Groups.applied Groups.stream_for_xgroup Groups.existing Groups.group_of
    Groups.group_in stream_at stream_or_none raising State.evict_if_expired State.log_operation
    State.log_record State.touch_write State.evict_oldest State.track State.tracks
    State.bump_version State.move_to_end State.forget Dict.get Dict.put Dict.has text_eq
    Ids.check_name Ids.parse_id Ids.parse_id_or Ids.partition Ids.to_u64 Ids.format_id Decimal.print
    Decimal.all_digits Decimal.value_from Stream_records.kind_of Stream_records.apply_group_record
    Stream_records.apply_kind Stream_records.create_or_move
group_run = tt

group_log :
    made.log
    ≡ command (codes "XADD" ∷ codes "k" ∷ codes "5-1" ∷ codes "f" ∷ codes "v" ∷ [])
      ∷ command (codes "XGROUP" ∷ codes "k" ∷ codes "g" ∷ codes "0-1" ∷ [])
      ∷ []
unfolding group_run
group_log = refl

-- XGAPPLY has made an entry pending, so XACK takes one away and logs it.
acknowledges :
    (execute_group delivered (codes "k") (acknowledge (codes "g") (codes "5-1" ∷ [])) 8 8).1
    ≡ returns 1
unfolding group_run
acknowledges = refl

group_session : LoggedGroups 8 acknowledged
unfolding group_run
group_session =
    group_call (codes "k") (acknowledge (codes "g") (codes "5-1" ∷ [])) 8 8 (omega arith) refl refl
      (group_call (codes "k")
        (apply (codes "XGPEL") (codes "g") (codes "c" ∷ codes "5-1" ∷ codes "9" ∷ codes "1" ∷ [])) 8
        8 (omega arith) refl refl
        (group_call (codes "k") (createconsumer (codes "g") (codes "c") 9) 6 7 (omega arith) refl
          refl
          (group_call (codes "k") (create (codes "g") (codes "0-1") false) 5 5 (omega arith) refl
            refl
            (add_call (codes "k") (codes "f" ∷ codes "v" ∷ []) (codes "5-1") false 4 9 (omega arith)
              refl (λ v e. absurd (ground (arith, e))) (omega arith) (began fresh)))))

replay-group_log_example :
    (r : Store) × (replay machine (recovering_store 8) acknowledged.log ≡ replayed r)
    × (r.data_map ≡ acknowledged.data_map)
    × (r.expires ≡ acknowledged.expires)
replay-group_log_example =
    replay-group_log machine ascii_upper-KeepsUpper 8 (omega arith) group_session
