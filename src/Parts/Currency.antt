-- ===== src/Parts/Currency.antt =====
-- parts/currency.py: the closed set of ISO-4217 codes. `str.upper` over all of Unicode is the
-- parameter `upper`.
use gutencode_test.Prelude.{
  Bool, Text-Eq, List, [], ◌∷◌, ◌++◌, Text, codes, nat_eq, elem, if◌then◌else◌,
}

-- The words of a text with single spaces: `word` is the one being read.
unfoldable pub split_spaces : Text → Text → List Text
split_spaces word [] = word ∷ []
split_spaces word (c ∷ cs) =
    let next = split_spaces [] cs in
    let more = split_spaces (word ++ (c ∷ [])) cs in if nat_eq c b' ' then word ∷ next else more

unfoldable pub currency_text : Text
unfolding codes
currency_text =
    codes
      "AED AFN ALL AMD ANG AOA ARS AUD AWG AZN BAM BBD BDT BGN BHD BIF BMD BND BOB BRL BSD BTN BWP BYN BZD "
    ++ codes
        "CAD CDF CHF CLP CNY COP CRC CUP CVE CZK DJF DKK DOP DZD EGP ERN ETB EUR FJD FKP GBP GEL GHS GIP GMD "
    ++ codes
        "GNF GTQ GYD HKD HNL HTG HUF IDR ILS INR IQD IRR ISK JMD JOD JPY KES KGS KHR KMF KPW KRW KWD KYD KZT "
    ++ codes
        "LAK LBP LKR LRD LSL LYD MAD MDL MGA MKD MMK MNT MOP MRU MUR MVR MWK MXN MYR MZN NAD NGN NIO NOK NPR "
    ++ codes
        "NZD OMR PAB PEN PGK PHP PKR PLN PYG QAR RON RSD RUB RWF SAR SBD SCR SDG SEK SGD SHP SLE SOS SRD SSP "
    ++ codes
        "STN SVC SYP SZL THB TJS TMT TND TOP TRY TTD TWD TZS UAH UGX USD UYU UZS VED VES VND VUV WST XAF XCD "
    ++ codes "XOF XPF YER ZAR ZMW ZWG"

-- frozenset((...).split())
unfoldable pub currency_codes : List Text
unfolding split_spaces currency_text
currency_codes = split_spaces [] currency_text

module _ (upper : Text → Text) where
  unfoldable pub is_currency : Text → Bool
  unfolding currency_codes
  is_currency code = elem (upper code) currency_codes
