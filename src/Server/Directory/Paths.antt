-- ===== src/Server/Directory/Paths.antt =====
-- The files that a directory gives, and the output file of each.
use so.Common.{
  ℕ, zero, suc, ◌+◌, ◌-◌, ◌≤◌, ◌<◌, if◌then◌else◌, List, [], ◌∷◌, ◌++◌, Bytes, codes, take, length,
  arith, ◌≡◌, refl, ap, ok,
}
use so.Server.Directory.{job_path, is_job, collect, process_job_directory}
use so.Server.Job.{max_job_file_name_size, output_path, without_suffix}
use so.Server.Parser.{max_write_size}

-- The paths of the entries that have `.job` in their names and fit in a place.
abbrev pub jobs_of : Bytes → List Bytes → List Bytes
jobs_of input_dir [] = []
jobs_of input_dir (name ∷ names) =
    let rest = jobs_of input_dir names in
    if is_job input_dir name then job_path input_dir name ∷ rest else rest

collect-jobs_of :
    (input_dir : Bytes) (count : ℕ) (names : List Bytes)
    → count + length names ≤ max_write_size
    → collect input_dir count names ≡ ok (jobs_of input_dir names)
unfolding collect
collect-jobs_of input_dir count [] few = refl
collect-jobs_of input_dir count (name ∷ names) few = ground (
  arith,
  collect-jobs_of input_dir (suc count) names (omega arith),
  collect-jobs_of input_dir count names (omega arith),
)

-- A directory of at most 256 entries gives the paths of those that have `.job` in their names and
-- whose paths are shorter than 256 bytes, in order.
pub process_job_directory-jobs_of :
    (input_dir : Bytes) (names : List Bytes)
    → length names ≤ max_write_size
    → process_job_directory input_dir names ≡ ok (jobs_of input_dir names)
unfolding process_job_directory
process_job_directory-jobs_of input_dir names few = collect-jobs_of input_dir 0 names (omega arith)

take-append : (xs ys : Bytes) → take (length xs) (xs ++ ys) ≡ xs
take-append [] ys = refl
take-append (x ∷ xs) ys = ap (◌∷◌ x) (take-append xs ys)

length-append : (xs ys : Bytes) → length (xs ++ ys) ≡ length xs + length ys
length-append [] ys = omega arith
length-append (x ∷ xs) ys = omega (arith, length-append xs ys)

take-short : (n : ℕ) (xs : Bytes) → length xs ≤ n → take n xs ≡ xs
take-short zero [] h = refl
take-short zero (x ∷ xs) h = absurd (omega arith)
take-short (suc n) [] h = refl
take-short (suc n) (x ∷ xs) h = ap (◌∷◌ x) (take-short n xs (omega arith))

without_suffix-append : (xs ys : Bytes) → length ys ≡ 4 → without_suffix (xs ++ ys) ≡ xs
without_suffix-append xs ys four =
    let l = length-append xs ys in
    let n : length (xs ++ ys) - 4 ≡ length xs = omega arith in
    rw n (ground (arith, take-append xs ys))

-- The output of `stem.job` goes to `stem.out`, for a path that fits in 256 bytes.
pub output_path-job :
    (stem : Bytes)
    → length (stem ++ codes ".job") < max_job_file_name_size
    → output_path (stem ++ codes ".job") ≡ stem ++ codes ".out"
unfolding output_path
output_path-job stem short =
    let l : length (stem ++ codes ".job") ≡ length stem + 4 = length-append stem (codes ".job") in
    let m : length (stem ++ codes ".out") ≡ length stem + 4 = length-append stem (codes ".out") in
    let stripped : without_suffix (stem ++ codes ".job") ≡ stem =
      without_suffix-append stem (codes ".job") refl in
    rw stripped (take-short 255 (stem ++ codes ".out") (omega arith))
