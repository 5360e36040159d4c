-- ===== src/Executor/Tables/Laws.antt =====
-- The shape of the tables, and the order of the access keys.
use mathlib.Core.List.{Perm}
use mathlib.Core.List.Perm
use mathlib.Core.List.{perm_middle}
use code_push.Common.{
  eqb, ℕ, ◌+◌, ◌<◌, ◌≤◌, ◌≡◌, refl, ap, String, Bool, true, false, Option, none, some, List, [],
  ◌∷◌, ◌++◌, ◌==◌, map, arith, if◌then◌else◌,
}
use code_push.Common.Lines.{split_lines, IsLine, split_lines-map}
use code_push.Management.Sessions.{AccessKey}
use code_push.Executor.Tables.{format_date, dim, Display, Printed, nothing, json, table, printed}
use code_push.Executor.Tables.Texts.{Package, apply_chalk_skipping_line_breaks}
use code_push.Executor.Tables.Metrics.{DeploymentMetrics}
use code_push.Executor.Tables.Lists.{
  Deployment, is_expired, key_to_table_row, rows_of, print_access_keys, print_deployment_list,
}
use code_push.Executor.Tables.History.{cells, row, print_deployment_history}
use code_push.Executor.Tables.Shown.{shown_deployments, shown_history}

abbrev pub length {ℓ} : {A : Type ℓ} → List A → ℕ
length [] = 0
length (a ∷ l) = length l + 1

abbrev pub Every {ℓ κ} : {A : Type ℓ} → (A → Type κ) → List A → Type κ
Every P [] = Unit
Every P (a ∷ l) = P a × Every P l

-- Every row of a table has as many cells as there are headers.
abbrev pub IsRectangular : {A : Type 0} → Printed A → Type 0
IsRectangular nothing = Unit
IsRectangular (json a) = Unit
IsRectangular (table headers rows) = Every (λ row. length row ≡ length headers) rows

Every-map :
    {A B : Type 0} (P : B → Type 0) (f : A → B)
    → ((a : A) → P (f a))
    → (l : List A) → Every P (map f l)
Every-map P f h [] = tt
Every-map P f h (a ∷ l) = (h a, Every-map P f h l)

printed-IsRectangular :
    {A : Type 0} (format : Option String) (a : A) (headers : List String)
    (rows : List (List String))
    → Every (λ row. length row ≡ length headers) rows
    → IsRectangular (printed format a headers rows)
printed-IsRectangular none a headers rows h = tt
printed-IsRectangular (some format) a headers rows h = go (format == "json") (format == "table")
  where
    go :
        (b c : Bool)
        → IsRectangular (if b then json a else if c then table headers rows else nothing)
    go true c = tt
    go false true = h
    go false false = tt

length-map : {A B : Type 0} (f : A → B) (l : List A) → length (map f l) ≡ length l
length-map f [] = refl
length-map f (a ∷ l) = ap (λ n. n + 1) (length-map f l)

cells-length :
    (env : Display) (display : Bool) (email : String) (p : Package)
    → length (cells env display email p) ≡ (if display then 7 else 6)
unfolding cells
cells-length env true email p = refl
cells-length env false email p = refl

columns-length :
    (b c : Bool) (name key package_text metrics name' key' package_text' metrics' : String)
    → length
        (name ∷ (if b then key ∷ [] else []) ++ (if c then package_text ∷ metrics ∷ [] else []))
      ≡ length (
          name' ∷ (if b then key' ∷ [] else [])
          ++ (if c then package_text' ∷ metrics' ∷ [] else []))
columns-length true true name key package_text metrics name' key' package_text' metrics' = refl
columns-length true false name key package_text metrics name' key' package_text' metrics' = refl
columns-length false true name key package_text metrics name' key' package_text' metrics' = refl
columns-length false false name key package_text metrics name' key' package_text' metrics' = refl

-- The tables of deployments and of releases have as many cells in each row as headers, whatever
-- columns are asked for and whether a release is disabled or not.
pub tables-AreRectangular :
    (env : Display) (format : Option String) (display show_package : Bool) (email : String)
    (metrics : String → DeploymentMetrics) (deployments : List Deployment)
    (counts : DeploymentMetrics) (history : List Package)
    → IsRectangular (shown_deployments env format display show_package metrics deployments)
      × IsRectangular (shown_history env format display email counts history)
unfolding shown_deployments shown_history print_deployment_list print_deployment_history row cells
tables-AreRectangular env format display show_package email metrics deployments counts history = (
  printed-IsRectangular format _ _ _
      (Every-map _ _ (λ d. columns-length display show_package d.name _ _ _ "Name" _ _ _) _),
  printed-IsRectangular format _ _ _ (
      Every-map _ _
        (λ p.
          ground
            (arith, length-map _ (cells env display email p), cells-length env display email p))
        _),
)

-- The name of a key and when it was created, where that is known.
abbrev pub plain_row : Display → AccessKey → List String
plain_row env key =
    key.name ∷ (if eqb key.created_time 0 then "" else format_date env key.created_time) ∷ []

abbrev pub dimmed_row : Display → AccessKey → List String
dimmed_row env key = map (env.chalk dim) (plain_row env key)

-- The keys of a list in two parts, by what the two loops make of them.
record Parted (env : Display) (keys : List AccessKey) : Type 0 where
  current : List AccessKey
  expired : List AccessKey
  current_rows : rows_of env false keys ≡ map (plain_row env) current
  expired_rows : rows_of env true keys ≡ map (dimmed_row env) expired
  perm : Perm keys (current ++ expired)
  after : Every (λ key. env.now < key.expires) current
  before : Every (λ key. key.expires ≤ env.now) expired

parted : (env : Display) (keys : List AccessKey) → Parted env keys
unfolding rows_of key_to_table_row
parted env [] = record {
  current = [];
  expired = [];
  current_rows = refl;
  expired_rows = refl;
  perm = Perm.refl [];
  after = tt;
  before = tt;
}
parted env (key ∷ keys) = go (is_expired env key) refl (parted env keys)
  where
    go : (b : Bool) → is_expired env key ≡ b → Parted env keys → Parted env (key ∷ keys)
    go true e k = record {
      current = k.current;
      expired = key ∷ k.expired;
      current_rows = rw (e) k.current_rows;
      expired_rows = rw (e, k.expired_rows) refl;
      perm = Perm.trans (Perm.cons key k.perm) (Perm.symm (perm_middle k.current k.expired));
      after = k.after;
      before = (ground (arith), k.before);
    }
    go false e k = record {
      current = key ∷ k.current;
      expired = k.expired;
      current_rows = rw (e, k.current_rows) refl;
      expired_rows = rw (e) k.expired_rows;
      perm = Perm.cons key k.perm;
      after = (ground (arith), k.after);
      before = k.before;
    }

-- A table of access keys has a row for each key with its name and its time: first those that have not
-- expired, without a style, and then those that have, with every cell dimmed.
pub print_access_keys_lem :
    (env : Display) (keys : List AccessKey)
    → (current : List AccessKey) × (expired : List AccessKey) × (print_access_keys env
          (some "table")
          keys
        ≡ table
            ("Name" ∷ "Created" ∷ [])
            (map (plain_row env) current ++ map (dimmed_row env) expired))
      × Perm keys (current ++ expired)
      × Every (λ key. env.now < key.expires) current
      × Every (λ key. key.expires ≤ env.now) expired
unfolding print_access_keys
print_access_keys_lem env keys =
    let k = parted env keys in
    (k.current, k.expired, rw (k.current_rows, k.expired_rows) refl, k.perm, k.after, k.before)

-- The lines of a dimmed text are the lines of the text, each of them dimmed: no style goes over a
-- line break, where dimming itself makes none.
pub split_lines-apply_chalk_skipping_line_breaks :
    (text : String) (chalk_method : String → String)
    → ((line : String) → IsLine line → IsLine (chalk_method line))
    → split_lines "" (apply_chalk_skipping_line_breaks text chalk_method)
      ≡ map chalk_method (split_lines "" text)
unfolding apply_chalk_skipping_line_breaks
split_lines-apply_chalk_skipping_line_breaks text chalk_method h =
    split_lines-map chalk_method text h
