-- ===== src/Config/Options/RoundTrip.antt =====
-- The command line of config/runtime_config.hpp read back: options written as arguments are parsed to
-- the same options.
use ecat_middleware_advr.Prelude.{
  ℕ, ◌<◌, ◌≡◌, refl, ap, ◌∙◌, Bool, true, false, List, [], ◌∷◌, ◌++◌, Option, none, some, arith,
  if◌then◌else◌, Text, codes, text_eq, ok, to_string, all_digits, all_digits-to_string, head_digit,
  u32_mod,
}
use ecat_middleware_advr.Config.Yaml.{Yaml}
use ecat_middleware_advr.Config.File.Unsigned.{unsigned_value-single, parse_unsigned-to_string}
use ecat_middleware_advr.Config.Options.{
  CommonOptions, Rate, default_options, set_rate, is_flag, is_help, target_of, set_target, consume,
  parse_arguments, parse_common_options,
}

-- A number begins with no dash.
is_flag-to_string : (n : ℕ) → is_flag (to_string n) ≡ false
is_flag-to_string n = not_flag (to_string n) (all_digits-to_string n)
  where
    not_flag : (s : Text) → all_digits s ≡ true → is_flag s ≡ false
    not_flag [] h = unfold is_flag in refl
    not_flag (a ∷ []) h = unfold is_flag in refl
    not_flag (a ∷ b ∷ s) h = unfold is_flag in ground (arith, head_digit a (b ∷ s) h)

abbrev flag_of : Rate → Text
flag_of Rate.publishers = codes "--rate-publishers"
flag_of Rate.subscribers = codes "--rate-subscribers"
flag_of Rate.service = codes "--rate-service"

-- A rate, where it is given, as two arguments.
abbrev rate_arguments : Rate → Option ℕ → List Text
rate_arguments rate none = []
rate_arguments rate (some hz) = flag_of rate ∷ to_string hz ∷ []

-- The options as a command line.
abbrev pub arguments : CommonOptions → List Text
arguments o =
    rate_arguments Rate.publishers o.runtime.publishers
    ++ (rate_arguments Rate.subscribers o.runtime.subscribers
        ++ (rate_arguments Rate.service o.runtime.service
            ++ (codes "--config" ∷ o.config_path ∷ (if o.help then codes "--help" ∷ [] else []))))

abbrev with_rate : Rate → Option ℕ → CommonOptions → CommonOptions
with_rate rate none o = o
with_rate rate (some hz) o = set_rate rate hz o

abbrev pub InRange : Option ℕ → Type 0
InRange none = Unit
InRange (some hz) = hz < u32_mod

-- Setting the given rates of the default options, one after the other.
rates_given : (a b c : Option ℕ) → CommonOptions
rates_given a b c =
    with_rate Rate.service c
      (with_rate Rate.subscribers b (with_rate Rate.publishers a default_options))

rates_given_lem :
    (a b c : Option ℕ)
    → rates_given a b c
      ≡ record default_options { runtime = record { publishers = a; subscribers = b; service = c } }
unfolding rates_given
rates_given_lem none none none = refl
rates_given_lem none none (some c) = refl
rates_given_lem none (some b) none = refl
rates_given_lem none (some b) (some c) = refl
rates_given_lem (some a) none none = refl
rates_given_lem (some a) none (some c) = refl
rates_given_lem (some a) (some b) none = refl
rates_given_lem (some a) (some b) (some c) = refl

module _ (y : Yaml) where
  set_target-to_string :
      (o : CommonOptions) (flag : Text) (rate : Rate) (hz : ℕ)
      → hz < u32_mod
      → set_target y o flag (to_string hz) (some rate) ≡ ok (some (set_rate rate hz o))
  unfolding set_target
  set_target-to_string o flag rate hz h =
      rw (unsigned_value-single y (codes "rate") (to_string hz) 0 flag)
        (rw (parse_unsigned-to_string hz (flag ++ codes "." ++ codes "rate") h) refl)

  consume_rate :
      (o : CommonOptions) (rate : Rate) (hz : ℕ)
      → hz < u32_mod
      → consume y o (flag_of rate) (to_string hz) ≡ ok (some (set_rate rate hz o))
  unfolding consume text_eq target_of
  consume_rate o Rate.publishers hz h = set_target-to_string o _ Rate.publishers hz h
  consume_rate o Rate.subscribers hz h = set_target-to_string o _ Rate.subscribers hz h
  consume_rate o Rate.service hz h = set_target-to_string o _ Rate.service hz h

  not_help : (rate : Rate) → is_help (flag_of rate) ≡ false
  unfolding text_eq
  not_help Rate.publishers = refl
  not_help Rate.subscribers = refl
  not_help Rate.service = refl

  parse_rate :
      (o : CommonOptions) (rate : Rate) (hz : ℕ) (rest : List Text)
      → hz < u32_mod
      → parse_arguments y o (flag_of rate ∷ to_string hz ∷ rest)
        ≡ parse_arguments y (set_rate rate hz o) rest
  unfolding parse_arguments
  parse_rate o rate hz rest h =
      rw (not_help rate, is_flag-to_string hz) (rw (consume_rate o rate hz h) refl)

  parse_rate_arguments :
      (o : CommonOptions) (rate : Rate) (given : Option ℕ) (rest : List Text)
      → InRange given
      → parse_arguments y o (rate_arguments rate given ++ rest)
        ≡ parse_arguments y (with_rate rate given o) rest
  parse_rate_arguments o rate none rest h = refl
  parse_rate_arguments o rate (some hz) rest h = parse_rate o rate hz rest h

  parse_config :
      (o : CommonOptions) (path : Text) (help : Bool)
      → is_flag path ≡ false
      → o.help ≡ false
      → parse_arguments y o (codes "--config" ∷ path ∷ (if help then codes "--help" ∷ [] else []))
        ≡ ok (record o { config_path = path; help = help })
  unfolding parse_arguments consume text_eq
  parse_config o path true h k = rw h refl
  parse_config o path false h k = rw h (ground arith)

  -- Options whose rates are `uint32_t`s and whose path is no flag are read back from their arguments.
  pub parse_common_options-arguments :
      (o : CommonOptions)
      → InRange o.runtime.publishers
      → InRange o.runtime.subscribers
      → InRange o.runtime.service
      → is_flag o.config_path ≡ false
      → parse_common_options y (arguments o) ≡ ok o
  unfolding parse_common_options rates_given
  parse_common_options-arguments o p s v path =
      let a = o.runtime.publishers in
      let b = o.runtime.subscribers in
      let c = o.runtime.service in
      let end : List Text =
        codes "--config" ∷ o.config_path ∷ (if o.help then codes "--help" ∷ [] else []) in
      let set_a = with_rate Rate.publishers a default_options in
      let set_b = with_rate Rate.subscribers b set_a in
      parse_rate_arguments default_options Rate.publishers a
        (rate_arguments Rate.subscribers b ++ (rate_arguments Rate.service c ++ end)) p
      ∙ parse_rate_arguments set_a Rate.subscribers b (rate_arguments Rate.service c ++ end) s
      ∙ parse_rate_arguments set_b Rate.service c end v
      ∙ ap (λ start. parse_arguments y start end) (rates_given_lem a b c)
      ∙ parse_config _ o.config_path o.help path refl
