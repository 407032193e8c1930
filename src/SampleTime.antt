-- ===== src/SampleTime.antt =====
-- The time at which a sample is plotted (frontend/src/lib/sample-time.ts). Reading a date is the
-- platform's: `parse_date` is `new Date(text).getTime()`, and `none` where that is NaN. A date is in
-- milliseconds from 1970 on.
use perps_latency_benchmark.Prelude.{
  ◌∙◌, ℕ, ◌≡◌, refl, ap, ◌↔◌, ◌||◌, Option, none, some, List, [], ◌∷◌, ◌++◌, Text, txt, starts_with,
  or_option, is_blank, All, if◌then◌else◌,
}
use perps_latency_benchmark.Data.{Sample}

module _ (parse_date : Text → Option ℕ) where
  -- The date of one candidate; `none` goes on with the next.
  abbrev pub usable_date : Option Text → Option ℕ
  usable_date none = none
  usable_date (some value) =
      if is_blank value || starts_with (txt "0001-01-01") value then none else parse_date value

  unfoldable pub first_valid_date : List (Option Text) → Option ℕ
  first_valid_date [] = none
  first_valid_date (value ∷ values) = or_option (usable_date value) (first_valid_date values)

  unfoldable pub sample_plot_date : {N : Type 0} → Sample N → Option ℕ
  unfolding first_valid_date
  sample_plot_date sample =
      first_valid_date
        (sample.plot_at ∷ sample.scheduled_at ∷ sample.sent_at ∷ sample.completed_at ∷ [])

  -- The candidates before one have no date that can be used, and that one has the date `d`.
  pub record IsFirstDate (values : List (Option Text)) (d : ℕ) : Type 0 where
    pub before : List (Option Text)
    pub value : Option Text
    pub after : List (Option Text)
    pub in_order : values ≡ before ++ value ∷ after
    pub unusable : All (λ v. usable_date v ≡ none) before
    pub usable : usable_date value ≡ some d

  first_valid_date-IsFirstDate :
      (values : List (Option Text)) (d : ℕ)
      → first_valid_date values ≡ some d
      → IsFirstDate values d
  unfolding first_valid_date
  first_valid_date-IsFirstDate [] d h = cc
  first_valid_date-IsFirstDate (v ∷ values) d h =
      go (usable_date v) refl h (λ k. first_valid_date-IsFirstDate values d k)
    where
      go :
          (o : Option ℕ)
          → usable_date v ≡ o
          → or_option o (first_valid_date values) ≡ some d
          → (first_valid_date values ≡ some d → IsFirstDate values d)
          → IsFirstDate (v ∷ values) d
      go (some x) e k ih = record {
        before = [];
        value = v;
        after = values;
        in_order = refl;
        unusable = tt;
        usable = e ∙ k;
      }
      go none e k ih =
          let f = ih k in
          record {
            before = v ∷ f.before;
            value = f.value;
            after = f.after;
            in_order = ap (λ (l : List (Option Text)). v ∷ l) f.in_order;
            unusable = (e, f.unusable);
            usable = f.usable;
          }

  first_valid_date_of_unusable :
      (before : List (Option Text)) (v : Option Text) (after : List (Option Text)) (d : ℕ)
      → All (λ v. usable_date v ≡ none) before
      → usable_date v ≡ some d
      → first_valid_date (before ++ v ∷ after) ≡ some d
  unfolding first_valid_date
  first_valid_date_of_unusable [] v after d h e = rw (e, first_valid_date)
  first_valid_date_of_unusable (x ∷ before) v after d (h, hs) e =
      rw (h, first_valid_date) (first_valid_date_of_unusable before v after d hs e)

  IsFirstDate-first_valid_date :
      (values : List (Option Text)) (d : ℕ)
      → IsFirstDate values d
      → first_valid_date values ≡ some d
  IsFirstDate-first_valid_date values d f =
      rw (f.in_order) (first_valid_date_of_unusable f.before f.value f.after d f.unusable f.usable)

  -- A sample is plotted at a date exactly when that is the first one that can be used among its plot,
  -- schedule, send and completion times: present, not the zero time of Go, and readable.
  sample_plot_date-eq-some_iff :
      {N : Type 0} (s : Sample N) (d : ℕ)
      → (sample_plot_date s ≡ some d)
        ↔ IsFirstDate (s.plot_at ∷ s.scheduled_at ∷ s.sent_at ∷ s.completed_at ∷ []) d
  unfolding sample_plot_date
  sample_plot_date-eq-some_iff s d =
      (first_valid_date-IsFirstDate _ d, IsFirstDate-first_valid_date _ d)
