-- ===== src/Tests/Queries.antt =====
-- The properties of the query language, the delivery worker and the followed contexts at concrete inputs.
use cxdb.Prelude.{
  ℕ, ◌+◌, ◌-◌, ◌≡◌, ◌≢◌, refl, Bool, true, ◌&&◌, ◌||◌, Option, none, some, List, [], ◌∷◌, map, leb,
  ◌==◌, nat_eq, bytes_eq, arith, if◌then◌else◌, Bool-cases, inl, inr,
}
use cxdb.Prelude.HashSet.{HashSet, contains}
use cxdb.Turns.{ContextHead}
use cxdb.Cql.Order.{Text}
use cxdb.Cql.Ast
use cxdb.Cql.Ast.{
  codes, Operator, Value, Expression, FieldName, CqlQuery, CqlErrorType, QueryCrates, map_ok,
  from_str,
}
use cxdb.Cql.Metadata.{ContextMetadata, MetadataCache}
use cxdb.Cql.Indexes.{empty_indexes, build_from_cache, index_metadata, lookup, add_id}
use cxdb.Cql.Indexes.Lookups.{range}
use cxdb.Prelude.Dict.{get, insert}
use cxdb.Prelude.HashSet
use cxdb.Cql.Lexer.{ok, stuck, token, TokenType}
use cxdb.Cql.Parser.{parse, parse_tokens, origin}
use cxdb.Cql.Parser.Printer.{IsScalar, Takes, IsQuery, Level, print}
use cxdb.Cql.Parser.RoundTrip.{parse_tokens-print}
use cxdb.Cql.Parser.Typed.{parse-IsQuery}
use cxdb.Cql.Parser.Ends.{parse_ends}
use cxdb.Cql.Executor
use cxdb.Cql.Executor.Reference.{satisfies}
use cxdb.Cql.Executor.Rebuilt.{
  Addition, cached, headed, add_contexts, execute-build_from_cache, execute-add_contexts,
}
use cxdb.Cql.Search.{
  SearchResult, search_contexts, Answers, search_contexts-Answers, search_contexts_known,
}

-- Letters, digits and a sign, in ASCII.
abbrev is_letter : ℕ → Bool
is_letter c = (leb b'a' c && leb c b'z') || (leb b'A' c && leb c b'Z')

abbrev is_name : ℕ → Bool
is_name c = is_letter c || (leb b'0' c && leb c b'9')

abbrev lower_letter : ℕ → ℕ
lower_letter c = if leb b'A' c && leb c b'Z' then c + 32 else c

abbrev upper_letter : ℕ → ℕ
upper_letter c = if leb b'a' c && leb c b'z' then c - 32 else c

is_name_of_letter : (c : ℕ) → is_letter c ≡ true → is_name c ≡ true
is_name_of_letter c h = rw h refl

abbrev dated : Text → Option (Text × Text)
dated [] = none
dated (c ∷ rest) = if c == b'-' then some (rest, []) else none

dated_head :
    (s : Text) (groups : Text × Text) → dated s ≡ some groups → (rest : Text) × (s ≡ b'-' ∷ rest)
dated_head [] groups h = absurd (ground (arith, h))
dated_head (c ∷ rest) groups h = elim (Bool-cases (c == b'-')) [
  | inl dash ↦ (rest, ground arith)
  | inr other ↦ let bad = rw other at h in absurd (cc)
]

instance abbrev sample_query_crates : QueryCrates
sample_query_crates = record {
  to_lowercase = map lower_letter;
  f64_as_u64 = λ n. n;
  relative_captures = dated;
  relative_captures_head = dated_head;
  parse_u64 = λ s. none;
  parse_from_rfc3339 = λ s. none;
  parse_plain_date = λ s. none;
  is_whitespace = λ c. c == 32;
  is_alphabetic = is_letter;
  is_alphanumeric = is_name;
  alphanumeric_of_alphabetic = is_name_of_letter;
  to_uppercase = map upper_letter;
  parse_f64 = λ s. some 0;
}

abbrev tagged : Text → ContextMetadata
tagged tag = record { client_tag = some tag; title = none; labels = none; provenance = none }

abbrev head_at : ℕ → ℕ → ContextHead
head_at id depth = record {
  context_id = id;
  head_turn_id = id;
  head_depth = depth;
  created_at_unix_ms = 7;
  flags = 0;
}

abbrev two_contexts : MetadataCache
two_contexts = (1, some (tagged (codes "ab"))) ∷ (2, some (tagged (codes "Cd"))) ∷ []

abbrev two_heads : List ContextHead
two_heads = head_at 1 0 ∷ head_at 2 4 ∷ []

-- tag ^= "a" or not depth > 2
abbrev starts_or_shallow : Expression
starts_or_shallow =
    Expression.or_else
      (Expression.comparison (codes "tag") Operator.starts (Value.string (codes "a")))
      (Expression.negated (Expression.comparison (codes "depth") Operator.gt (Value.number 2)))

execute-build_from_cache_example :
    map_ok (contains 1) (
      Executor.execute
        (build_from_cache two_contexts two_heads empty_indexes)
        0
        []
        starts_or_shallow)
    ≡ satisfies two_contexts two_heads [] 1 0 starts_or_shallow
execute-build_from_cache_example =
    execute-build_from_cache two_contexts two_heads [] 1 0 starts_or_shallow

abbrev one_more : List Addition
one_more = (head_at 3 1, some (tagged (codes "abc"))) ∷ []

execute-add_contexts_example :
    map_ok (contains 3) (
      Executor.execute
        (add_contexts one_more (build_from_cache two_contexts two_heads empty_indexes))
        0
        []
        starts_or_shallow)
    ≡ map_ok (contains 3) (
        Executor.execute
          (build_from_cache
            (cached one_more two_contexts)
            (headed one_more two_heads)
            empty_indexes)
          0
          []
          starts_or_shallow)
execute-add_contexts_example =
    execute-add_contexts two_contexts two_heads [] 3 0 starts_or_shallow one_more

abbrev tag_query : Text
tag_query = codes "tag ~= 'CD' and not depth < 3"

abbrev tag_ast : Expression
tag_ast =
    Expression.and_also
      (Expression.comparison (codes "tag") Operator.eq_ci (Value.string (codes "CD")))
      (Expression.negated (Expression.comparison (codes "depth") Operator.lt (Value.number 0)))

tag_query-parsed : parse tag_query ≡ ok (record { raw = tag_query; ast = tag_ast })
unfolding parse
tag_query-parsed = refl

abbrev found_cd : SearchResult
found_cd = record {
  context_ids = 2 ∷ [];
  total_count = 1;
  query = record { raw = tag_query; ast = tag_ast };
}

tag_query-found :
    search_contexts (build_from_cache two_contexts two_heads empty_indexes) 0 [] (some 5) tag_query
    ≡ ok found_cd
unfolding parse search_contexts build_from_cache index_metadata Executor.execute
    Executor.execute_string_field Executor.execute_depth from_str lookup add_id range get insert
    HashSet.intersection HashSet.difference HashSet.insert HashSet.union contains
tag_query-found = refl

search_contexts-Answers_example :
    (all : List ℕ) × Answers two_contexts two_heads [] 0 (some 5) found_cd all
search_contexts-Answers_example =
    search_contexts-Answers 0 [] (some 5) two_contexts two_heads tag_query found_cd tt
      tag_query-found

search_contexts_known_example : CqlErrorType.invalid_value ≢ CqlErrorType.unknown_field
unfolding parse search_contexts Executor.execute Executor.execute_id from_str
search_contexts_known_example =
    search_contexts_known 0 [] none empty_indexes (codes "id = 'x'") _
      (Ast.refusal CqlErrorType.invalid_value "Expected numeric value") refl refl

parse-IsQuery_example : IsQuery tag_ast × (tag_query ≡ tag_query)
parse-IsQuery_example =
    parse-IsQuery tag_query (record { raw = tag_query; ast = tag_ast }) tag_query-parsed

parse_ends_example : parse (codes "tag = 'a") ≢ stuck
parse_ends_example = parse_ends (codes "tag = 'a")

tag_ast-IsQuery : IsQuery tag_ast
unfolding from_str
tag_ast-IsQuery =
    IsQuery.and_also
      (IsQuery.comparison FieldName.tag refl (Takes.single refl (IsScalar.text refl)))
      (IsQuery.negated
        (IsQuery.comparison FieldName.depth refl (Takes.single refl IsScalar.number)))

parse_tokens-print_example :
    parse_tokens tag_query
      (print origin Level.disjunction tag_ast (token TokenType.eof origin ∷ []))
    ≡ ok (record { raw = tag_query; ast = tag_ast })
parse_tokens-print_example = parse_tokens-print origin tag_query tag_ast tag_ast-IsQuery
