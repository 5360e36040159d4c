-- ===== src/Executor/Tables/Percent.antt =====
-- The percentage of the devices on which a release is active.
use code_push.Common.{
  ℕ, ◌+◌, ◌*◌, ◌<◌, ◌≤◌, ◌≡◌, refl, ap, String, ◌<>◌, Option, none, some, [], ◌∷◌, arith,
}
use mathlib.Core.Option.{some-injective}
use code_push.Common.Dict
use code_push.Common.Double.{Double}
use code_push.Common.Double.Laws.{Near}
use code_push.Common.Decimal.{to_decimal}
use code_push.Executor.Tables.Texts.{UpdateMetrics, MetricsWithTotalActive, Package, text_of}
use code_push.Executor.Tables.Metrics.{
  DeploymentMetrics, get_total_active, with_metrics, set_metrics,
}

get-≤-get_total_active :
    (label : String) (metrics : DeploymentMetrics) (counts : UpdateMetrics)
    → Dict.get label metrics ≡ some counts
    → counts.active ≤ get_total_active metrics
unfolding Dict.get get_total_active
get-≤-get_total_active label [] counts h = cc
get-≤-get_total_active label ((l, m) ∷ metrics) counts h =
    let rest = get-≤-get_total_active label metrics counts in
    ground (arith, some-injective m counts, ap UpdateMetrics.active)

abbrev IsRounded : Double → String → Type 0
IsRounded d s =
    (n : ℕ) × (s ≡ to_decimal n <> "%")
    × (n < 100)
    × (2 * (n * d.denominator) ≤ 2 * d.numerator + d.denominator)
    × (2 * d.numerator < 2 * (n * d.denominator) + d.denominator)

-- The double is the quotient of the two numbers times a hundred, each of the two steps rounded by no
-- more than the part 2 ^ -53 of its result.
abbrev pub IsPercentage : ℕ → ℕ → Double → Type 0
IsPercentage active total d =
    (quotient : Double) × Near (total * quotient.numerator) (active * quotient.denominator)
    × Near (quotient.denominator * d.numerator) (quotient.numerator * 100 * d.denominator)

metrics-eq :
    (p : Package) (total : ℕ) (o : Option UpdateMetrics) (m : MetricsWithTotalActive)
    → p.metrics ≡ none
    → (set_metrics p total o).metrics ≡ some m
    → (counts : UpdateMetrics) × (o ≡ some counts) × (counts ≡ m.counts) × (total ≡ m.total_active)
metrics-eq p total none m h k = cc
metrics-eq p total (some counts) m h k =
    let e = some-injective _ _ k in (counts, refl, ap (λ m. m.counts) e, ap (λ m. m.total_active) e)

-- A release is never shown as active on more devices than there are, where its metrics are not set
-- before.
pub with_metrics-active :
    (metrics : DeploymentMetrics) (p : Package) (m : MetricsWithTotalActive)
    → p.metrics ≡ none
    → (with_metrics metrics p).metrics ≡ some m
    → m.counts.active ≤ m.total_active
unfolding with_metrics
with_metrics-active metrics p m h k =
    let c = metrics-eq p (get_total_active metrics) (Dict.get (text_of p.label) metrics) m h k in
    let bound = get-≤-get_total_active (text_of p.label) metrics c.0 c.1 in rw (c.2, c.3) at bound
