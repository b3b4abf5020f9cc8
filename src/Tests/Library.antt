-- ===== src/Tests/Library.antt =====
-- A small Python library to run the tests with.
use open_weave.Prelude.{false, none, some, if◌then◌else◌, ◌==◌, text_key}
use open_weave.Prelude.Int.{pos}
use open_weave.Python.{str, obj, end, field, Python}

abbrev pub py : Python
py = record {
  fromisoformat = λ s. if s == "1970-01-01T00:01:40+00:00" then some 100 else none;
  isoformat = λ t. "1970-01-01T00:01:40+00:00";
  int_of_text = λ s. if s == "7" then some (pos 7) else none;
  int_of_float = λ bits. some (pos bits);
  float_of_text = λ s. none;
  float_of_int = λ z. 1;
  float_of_decimal = λ z. 2;
  sum_floats = λ xs. 3;
  less = λ a b. false;
  equal = λ a b. false;
  text_of = λ v. "text";
  lower = λ s. s;
  upper = λ s. s;
  dumps = λ v. "{\"id\": \"e1\"}";
  loads = λ s. if s == "not json" then none else some (obj (field "id" (str "e1") end));
}
