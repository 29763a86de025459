-- ===== src/Store/GroupKinds.antt =====
-- Every kind of a resolved group record of store.py is told apart at a replay.
use kedis_python.Prelude.{
  inl, inr, refl, true, Text, text_eq, codes, Bool-cases, eq_iff, ◌≡◌, arith,
}
use kedis_python.Dict.{text_key}
use kedis_python.Stream.Records as Stream_records
use kedis_python.Stream.Records.{parse_ids}
use kedis_python.Store.Replay.{Host, kind_of}
use kedis_python.Store.Recovered.{KeepsUpper}
use kedis_python.Store.Groups.{is_group_kind}
use kedis_python.Store.GroupsRecovered.{IsKind}

module _ (host : Host) (keeps : KeepsUpper host) where
  pub xgroup-IsKind : IsKind host (codes "XGROUP")
  xgroup-IsKind = record {
    upper = keeps (codes "XGROUP") (refl, (refl, (refl, (refl, (refl, (refl, tt))))));
    replays = unfold kind_of Stream_records.kind_of text_eq in refl;
  }

  pub xgdel-IsKind : IsKind host (codes "XGDEL")
  xgdel-IsKind = record {
    upper = keeps (codes "XGDEL") (refl, (refl, (refl, (refl, (refl, tt)))));
    replays = unfold kind_of Stream_records.kind_of text_eq in refl;
  }

  pub xgcons-IsKind : IsKind host (codes "XGCONS")
  xgcons-IsKind = record {
    upper = keeps (codes "XGCONS") (refl, (refl, (refl, (refl, (refl, (refl, tt))))));
    replays = unfold kind_of Stream_records.kind_of text_eq in refl;
  }

  pub xgcdel-IsKind : IsKind host (codes "XGCDEL")
  xgcdel-IsKind = record {
    upper = keeps (codes "XGCDEL") (refl, (refl, (refl, (refl, (refl, (refl, tt))))));
    replays = unfold kind_of Stream_records.kind_of text_eq in refl;
  }

  pub xack-IsKind : IsKind host (codes "XACK")
  xack-IsKind = record {
    upper = keeps (codes "XACK") (refl, (refl, (refl, (refl, tt))));
    replays = unfold kind_of Stream_records.kind_of text_eq in refl;
  }

  pub xgpel-IsKind : IsKind host (codes "XGPEL")
  xgpel-IsKind = record {
    upper = keeps (codes "XGPEL") (refl, (refl, (refl, (refl, (refl, tt)))));
    replays = unfold kind_of Stream_records.kind_of text_eq in refl;
  }

  pub xglast-IsKind : IsKind host (codes "XGLAST")
  xglast-IsKind = record {
    upper = keeps (codes "XGLAST") (refl, (refl, (refl, (refl, (refl, (refl, tt))))));
    replays = unfold kind_of Stream_records.kind_of text_eq in refl;
  }

  named : (kind name : Text) → text_eq kind name ≡ true → IsKind host name → IsKind host kind
  named kind name e k = let same : kind ≡ name = ground (arith, eq_iff kind name, e) in rw same k

  -- Every kind that a record may have is one.
  pub group-IsKind : (kind : Text) → is_group_kind kind ≡ true → IsKind host kind
  unfolding Stream_records.kind_of
  group-IsKind kind h = elim (Bool-cases (text_eq kind (codes "XACK"))) [
    | inl e ↦ named kind (codes "XACK") e xack-IsKind
    | inr q0 ↦ elim (Bool-cases (text_eq kind (codes "XGROUP"))) [
      | inl e ↦ named kind (codes "XGROUP") e xgroup-IsKind
      | inr q1 ↦ elim (Bool-cases (text_eq kind (codes "XGDEL"))) [
        | inl e ↦ named kind (codes "XGDEL") e xgdel-IsKind
        | inr q2 ↦ elim (Bool-cases (text_eq kind (codes "XGCONS"))) [
          | inl e ↦ named kind (codes "XGCONS") e xgcons-IsKind
          | inr q3 ↦ elim (Bool-cases (text_eq kind (codes "XGCDEL"))) [
            | inl e ↦ named kind (codes "XGCDEL") e xgcdel-IsKind
            | inr q4 ↦ elim (Bool-cases (text_eq kind (codes "XGPEL"))) [
              | inl e ↦ named kind (codes "XGPEL") e xgpel-IsKind
              | inr q5 ↦ elim (Bool-cases (text_eq kind (codes "XGLAST"))) [
                | inl e ↦ named kind (codes "XGLAST") e xglast-IsKind
                | inr q6 ↦ absurd (ground (arith, h, q0, q1, q2, q3, q4, q5, q6))
              ]
            ]
          ]
        ]
      ]
    ]
  ]
