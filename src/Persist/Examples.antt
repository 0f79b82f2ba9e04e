-- ===== src/Persist/Examples.antt =====
-- src/persist/StateSerializer.cpp: runs of the model, and the round trip at a concrete value.
use amlp.Base.{
  ℕ, ◌+◌, ◌-◌, true, false, ◌++◌, none, some, ◌≡◌, refl, arith, Bytes, codes, ltb, if◌then◌else◌,
}
use amlp.Base.Result.{thrown, returned}
use amlp.Base.Decimal.{show, read_digits}
use amlp.Base.Int.{pos, negsuc}
use amlp.Persist.{
  invalid_argument, unknown_value_kind, wide_mapping, Value, void, nil, int, real, string, object,
  array, mapping, closure, no_items, item, no_entries, entry, stoull, show_int, split_field, field,
  int_field, size_field, item_count, entry_count, magnitude, stoll,
}
use amlp.Persist.Values.{Tables, serialize, deserialize}
use amlp.Persist.Restored.{restored, Fits, weight, Resolves}
use amlp.Persist.RoundTrip.{deserialize-serialize}

-- Objects 0 to 9 have the ids 100 to 109; doubles are natural numbers.
abbrev tables : Tables ℕ
tables = record {
  id_of_object = λ o. if ltb o 10 then some (o + 100) else none;
  object_of_id = λ id. elim id [
    | pos n ↦ if ltb n 100 then none else if ltb n 110 then some (n - 100) else none
    | negsuc n ↦ none
  ];
  show_double = show;
  stod = λ text. stoull text;
}

tables-Resolves : Resolves tables
tables-Resolves = record { known = λ o id p. ground arith; fits = λ o id p. ground arith }

abbrev value : Value ℕ
value = array true (
    item (int true (negsuc 11)) (
      item (string (codes "a;b")) (
        item (mapping 1 (entry (string (codes "k")) (object (some 3)) no_entries)) (
          item (closure (some 77) true (codes "f") (item (real 5) no_items)) (item nil no_items)))))

abbrev text : Bytes
text = codes "A5:I-12;S3:a;bM1:S1:kO103;C-1;1;1:f1;F5;N"

deserialize-serialize_example :
    deserialize tables 40 (codes "IDs;" ++ (text ++ codes "N")) 4
    ≡ returned (
      array false (
          item (int false (negsuc 11)) (
            item (string (codes "a;b")) (
              item (mapping 1 (entry (string (codes "k")) (object (some 3)) no_entries)) (
                item
                  (closure none true (codes "f") (item (real 5) no_items))
                  (item void no_items))))),
      45,
    )
unfolding serialize Fits weight restored show_int item_count entry_count stoull magnitude
    read_digits
deserialize-serialize_example =
    deserialize-serialize tables tables-Resolves value (codes "IDs;") text (codes "N") 40 refl
      (
        omega arith,
        (
          refl,
          (tt, ((omega arith, (tt, tt, tt)), ((omega arith, ((refl, (refl, tt)), tt)), (tt, tt)))),
        ),
      )
      (omega arith) (omega arith)

-- A dump that breaks off inside its last number is read as the digits that are left.
truncated_run : deserialize tables 2 (codes "I12") 0 ≡ returned (int false (pos 12), 0)
unfolding deserialize int_field field split_field stoll magnitude read_digits
truncated_run = refl

errors_run :
    (deserialize tables 5 (codes "Ax:") 0 ≡ thrown invalid_argument)
    × (deserialize tables 5 (codes "?") 0 ≡ thrown unknown_value_kind)
    × (serialize tables (mapping 2 no_entries) ≡ thrown wide_mapping)
unfolding deserialize serialize size_field field split_field stoull magnitude
errors_run = (refl, refl, refl)
