-- ===== src/Time/Examples.antt =====
-- Texts of instants.
use eventbook.Prelude.{◌*◌, ◌^◌, ◌≤◌, ◌<◌, suc, ◌≡◌, refl, inl, some, codes, ok, failure, arith}
use eventbook.Prelude.Int.{pos, ◌+ℤ◌, ◌-ℤ◌, neg_ℤ}
use eventbook.Time.{parse_rfc3339, invalid_date, kept_micros, since_epoch}
use eventbook.Time.Fraction.{kept_micros-value}
use eventbook.Time.Texts.{TimeText, numeric, IsTimeText}
use eventbook.Time.Parse.{parse_rfc3339-text_of}

epoch : parse_rfc3339 (codes "1970-01-01T00:00:00Z") ≡ ok (record { micros = pos 0 })
unfolding parse_rfc3339 ◌+ℤ◌ ◌-ℤ◌ neg_ℤ
epoch = refl

no_such_day : parse_rfc3339 (codes "2026-02-30T12:34:56Z") ≡ failure invalid_date
unfolding parse_rfc3339 ◌+ℤ◌ ◌-ℤ◌ neg_ℤ
no_such_day = refl

abbrev noon : TimeText
noon = record {
  year = codes "2026";
  month = codes "08";
  day = codes "24";
  mark = b'T';
  hour = codes "12";
  minute = codes "34";
  second = codes "56";
  fraction = some (codes "5");
  zone = numeric b'+' (codes "02") (codes "00");
}

noon-IsTimeText : IsTimeText noon
noon-IsTimeText = record {
  year = (
    (
      (omega arith, omega arith),
      ((omega arith, omega arith), ((omega arith, omega arith), ((omega arith, omega arith), tt))),
    ),
    refl,
  );
  month = (((omega arith, omega arith), ((omega arith, omega arith), tt)), refl);
  day = (((omega arith, omega arith), ((omega arith, omega arith), tt)), refl);
  mark = inl refl;
  hour = (((omega arith, omega arith), ((omega arith, omega arith), tt)), refl);
  minute = (((omega arith, omega arith), ((omega arith, omega arith), tt)), refl);
  second = (((omega arith, omega arith), ((omega arith, omega arith), tt)), refl);
  fraction = (((omega arith, omega arith), tt), omega arith);
  zone = (
    inl refl,
    (((omega arith, omega arith), ((omega arith, omega arith), tt)), refl),
    (((omega arith, omega arith), ((omega arith, omega arith), tt)), refl),
  );
}

parse_rfc3339-text_of_example :
    parse_rfc3339 (codes "2026-08-24T12:34:56.5+02:00")
    ≡ ok (record { micros = pos 1_787_567_696_500_000 })
unfolding kept_micros since_epoch ◌+ℤ◌ ◌-ℤ◌ neg_ℤ
parse_rfc3339-text_of_example = parse_rfc3339-text_of noon noon-IsTimeText

kept_micros-value_example : (1 * 10 ^ 7 ≤ 19 * 1_000_000) × (19 * 1_000_000 < suc 1 * 10 ^ 7)
unfolding kept_micros
kept_micros-value_example = kept_micros-value (codes "0000019") (
  (omega arith, omega arith),
  (
    (omega arith, omega arith),
    (
      (omega arith, omega arith),
      (
        (omega arith, omega arith),
        (
          (omega arith, omega arith),
          ((omega arith, omega arith), ((omega arith, omega arith), tt)),
        ),
      ),
    ),
  ),
)
