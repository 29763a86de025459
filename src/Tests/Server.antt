-- ===== src/Tests/Server.antt =====
-- The transactions of server.py at concrete inputs.
use kedis_python.Prelude.{◌≡◌, refl, false, ◌&&◌, List, [], ◌∷◌, arith, Text, text_eq, codes}
use kedis_python.Dict
use kedis_python.Utf8
use kedis_python.TextCodec
use kedis_python.Server.Transaction
use kedis_python.Server.Transaction.{
  Server, Session, new_session, runs_block, follows, any_write, handle,
}
use kedis_python.Server.Faithful.{Reaches-IsFaithful}
use kedis_python.Server.Sent
use kedis_python.Server.Sent.{IsFaithful, Reaches, start, step, sent_after}
use kedis_python.Server.Blocks.{AreUnchanged, handle-block}

abbrev leader : Server
leader = record {
  is_replica = false;
  versions = (codes "k", 3) ∷ [];
  upper = λ t. t;
  is_write = λ t. text_eq t (codes "SET");
}

abbrev watching : Session
watching = (handle leader new_session (codes "WATCH") (codes "k" ∷ [])).0

abbrev opened : Session
opened = (handle leader watching (codes "MULTI") []).0

abbrev queued : Session
queued = (handle leader opened (codes "SET") (codes "k" ∷ codes "v" ∷ [])).0

transaction_run : Unit {0}
unfolding handle Transaction.handle_route Transaction.route_of Transaction.router
    Transaction.handle_watch Transaction.watch_all Transaction.version_of Transaction.handle_multi
    Transaction.reset_queue Transaction.handle_other Transaction.queue_command
    Transaction.queue_sized Transaction.size_of Transaction.is_write_call Transaction.handle_exec
    Transaction.is_changed any_write Transaction.handle_discard Sent.sent_on TextCodec.to_bytes
    Utf8.encode_escape Utf8.encode_char Dict.get Dict.put text_eq
transaction_run = tt

abbrev block : List (List Text)
block = (codes "SET" ∷ codes "k" ∷ codes "v" ∷ []) ∷ []

reached : Reaches queued block
unfolding transaction_run
reached =
    step leader (codes "SET") (codes "k" ∷ codes "v" ∷ [])
      (step leader (codes "MULTI") []
        (step leader (codes "WATCH") (codes "k" ∷ []) start (λ e. ground (arith, e)))
        (λ e. ground (arith, e)))
      (λ e. ground (arith, e))

runs_queued : (handle leader queued (codes "EXEC") []).1 ≡ runs_block block
unfolding transaction_run
runs_queued = refl

-- REPLICAOF runs at once in an open block, and is not queued.
follows_at_once :
    handle leader opened (codes "REPLICAOF") (codes "h" ∷ codes "1" ∷ [])
    ≡ (opened, follows (codes "h") (codes "1"))
unfolding transaction_run Transaction.handle_replicaof
follows_at_once = refl

handle-block_example :
    (block ≡ block)
    × AreUnchanged leader.versions queued.watched_keys
    × ((false && any_write leader block) ≡ false)
    × ((handle leader queued (codes "EXEC") []).0 ≡ new_session)
handle-block_example = handle-block leader (codes "EXEC") [] block reached runs_queued

Reaches-IsFaithful_example : IsFaithful queued block
Reaches-IsFaithful_example = Reaches-IsFaithful reached
