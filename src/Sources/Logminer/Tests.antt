-- ===== src/Sources/Logminer/Tests.antt =====
-- sources/oracle.py on concrete input: statements as LogMiner writes them.
use dremio_cdc.Prelude.{
  ℕ, ◌≤◌, All, subst, inl, inr, arith, ◌≢◌, text_eq, Text-discrete, ne_of_test, ◌≡◌, refl, Option,
  none, some, List, [], ◌∷◌, map, Text,
}
use dremio_cdc.Prelude.Chars.{codes, join}
use dremio_cdc.Event.{Value, Operation}
use dremio_cdc.Sources.Logminer.{Floats, csv_split, parse_val, split_table}
use dremio_cdc.Sources.Logminer.Rows.{
  Mined, event, polls, parse_insert, parse_set, parse_logminer_row,
}
use dremio_cdc.Sources.Logminer.Polls.{Shows, EndsOutside, polls-In}
use dremio_cdc.Outcome.{Outcome, ok, raised}
use dremio_cdc.Engine.Delivery.{In}
use dremio_cdc.Sources.Logminer.Insert.{parse_insert-print_insert}

abbrev no_floats : Floats
no_floats = record { parse_float = λ s. none }

inserted_row :
    parse_insert no_floats
      (codes "insert into \"HR\".\"E\"(\"ID\",\"NAME\") values ('7','O''Hara, P');")
    ≡ (codes "ID", Value.text (codes "7")) ∷ (codes "NAME", Value.text (codes "O'Hara, P")) ∷ []
unfolding parse_insert dremio_cdc.Prelude.Text-discrete dremio_cdc.Prelude.Chars.strip
    dremio_cdc.Prelude.Chars.to_lower dremio_cdc.Prelude.Chars.split csv_split parse_val
    dremio_cdc.Prelude.Chars.to_upper
inserted_row = refl

updated_row :
    parse_logminer_row no_floats Operation.update
      (some (codes "update \"HR\".\"E\" set \"NAME\" = 'B', \"AGE\" = '3' where \"ID\" = '7';"))
      none
    ≡ (
      some ((codes "NAME", Value.text (codes "B")) ∷ (codes "AGE", Value.text (codes "3")) ∷ []),
      none,
    )
unfolding parse_logminer_row dremio_cdc.Prelude.Text-discrete dremio_cdc.Prelude.Chars.to_upper
    csv_split dremio_cdc.Prelude.Chars.strip parse_val
updated_row = refl

-- A letter before ' where ' hides it: the condition becomes a part of the value.
null_before_where :
    parse_set no_floats (codes "update \"HR\".\"E\" set \"NAME\" = NULL where \"ID\" = '7';")
    ≡ (codes "NAME", Value.text (codes "NULL where \"ID\" = '7'")) ∷ []
unfolding parse_set dremio_cdc.Prelude.Text-discrete dremio_cdc.Prelude.Chars.to_upper csv_split
    dremio_cdc.Prelude.Chars.strip parse_val dremio_cdc.Sources.Datastream.Offset.parse_int
    dremio_cdc.Sources.Datastream.Offset.read_digits
null_before_where = refl

default_schema : split_table (codes "employees") ≡ (codes "HR", codes "EMPLOYEES")
unfolding split_table dremio_cdc.Prelude.Chars.to_upper
default_schema = refl

-- A value with a comma, a quote and parentheses.
names_differ : codes "NAME" ≢ codes "BOSS"
unfolding Text-discrete
names_differ = ne_of_test (codes "NAME") (codes "BOSS") refl

parse_insert-print_insert_example :
    parse_insert no_floats
      (codes "insert into \"HR\".\"E\"(\"NAME\",\"BOSS\") values ('O''Hara, (P); ',NULL);")
    ≡ (codes "NAME", Value.text (codes "O'Hara, (P); ")) ∷ (codes "BOSS", Value.null) ∷ []
parse_insert-print_insert_example =
    parse_insert-print_insert no_floats (codes "HR") (codes "E")
      (codes "NAME", some (codes "O'Hara, (P); ")) ((codes "BOSS", none) ∷ [])
      ((refl, refl, refl), ((refl, refl, refl), tt)) ((refl, refl, refl), tt)
      (
        ((refl, refl, refl), ((refl, refl, refl), ((refl, refl, refl), ((refl, refl, refl), tt)))),
        (
          (
            (refl, refl, refl),
            ((refl, refl, refl), ((refl, refl, refl), ((refl, refl, refl), tt))),
          ),
          tt,
        ),
      )
      ((names_differ, tt), (tt, tt))

abbrev deleted_row : Mined no_floats
deleted_row = record {
  scn = 7;
  op_code = 2;
  sql_redo = none;
  sql_undo = some (codes "insert into \"HR\".\"E\"(\"ID\") values ('7');");
  now = 100;
}

-- The row's transaction begins at 7 and is committed at 8. The query of the first turn fails; the
-- second goes on from the same place.
abbrev two_turns : List (ℕ × (ℕ → ℕ → Outcome (List (Mined no_floats))))
two_turns = (6, λ from to. raised (codes "ORA-01291")) ∷ (9, λ from to. ok (deleted_row ∷ [])) ∷ []

ends_outside : All (EndsOutside no_floats (codes "ora") (codes "HR.E") [] 7 8) two_turns
ends_outside = (inl (omega arith), (inr (omega arith), tt))

all_show : All (Shows no_floats (codes "ora") (codes "HR.E") [] deleted_row 7 8) two_turns
all_show = (
  λ from to rows h low high. cc,
  (
    λ from to rows h low high.
        let same : deleted_row ∷ [] ≡ rows = cc in subst (In deleted_row) same (inl refl),
    tt,
  ),
)

reached : 8 ≤ (polls no_floats (codes "ora") (codes "HR.E") [] two_turns 5).1
unfolding polls
reached = omega arith

polls-In_example :
    In
      (event no_floats (codes "ora") (codes "HR.E") [] Operation.delete deleted_row)
      (polls no_floats (codes "ora") (codes "HR.E") [] two_turns 5).0
polls-In_example =
    polls-In no_floats (codes "ora") (codes "HR.E") [] Operation.delete deleted_row 7 8 two_turns 5
      refl all_show ends_outside (omega arith) (omega arith) reached
