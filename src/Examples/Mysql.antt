-- ===== src/Examples/Mysql.antt =====
-- A MySQL query with a CTE and a derived table, and a query whose sub-select locks rows.
use queryforge.Prelude.{◌≡◌, ◌↔◌, refl, Bool, true, false, some, [], ◌∷◌, codes, trim_space}
use queryforge.Engine.{done}
use queryforge.Sql.{parsed, refused, not_read_only}
use queryforge.Sql.Mysql.{
  Ast, nil, cons, SelectParts, field, wildcard, select_node, with_clause, named_source,
  derived_source, TidbParser, mysql_statement, locking_text, parse_mysql,
}
use queryforge.Sql.Mysql.Gate.{IsReadOnly, parse_mysql_iff}

abbrev reading : Bool → SelectParts
reading locks = record {
  locks = locks;
  writes_into = false;
  limited = true;
  ordered = false;
  fields = field [] (some (codes "a")) ∷ wildcard ∷ [];
}

abbrev inner : Bool → Ast
inner locks =
    derived_source
      (cons (select_node (reading locks) (cons (named_source [] (codes "t") []) nil)) nil)

abbrev query : Bool → Ast
query locks = select_node (reading false) (
    cons (with_clause (codes "c" ∷ []) nil)
      (cons (named_source [] (codes "C") (codes "x")) (cons (inner locks) nil)))

abbrev tidb : Bool → TidbParser
tidb locks = record {
  parse = λ sql. done (query locks ∷ [], []);
  normalize = λ sql. sql;
  digest = λ sql. codes "d";
}

parse_mysql_iff_example :
    (parse_mysql (tidb false) (codes "q")
      ≡ parsed (mysql_statement (tidb false) (codes "q") (query false)))
    ↔ ((n : Ast) × IsReadOnly (tidb false) (codes "q") n
        × (mysql_statement (tidb false) (codes "q") (query false)
            ≡ mysql_statement (tidb false) (trim_space (codes "q")) n))
parse_mysql_iff_example =
    parse_mysql_iff (tidb false) (codes "q")
      (mysql_statement (tidb false) (codes "q") (query false))

locking_refused : parse_mysql (tidb true) (codes "q") ≡ refused (not_read_only locking_text)
unfolding parse_mysql trim_space
locking_refused = refl
