-- ===== src/Common/Yaml.antt =====
-- The values of a configuration document, as the YAML parser returns them, and the reading of their
-- properties. A number is a whole number here.
use Prim.Native.String.{String}
use mathlib.Core.Bool.{Bool, true, false}
use mathlib.Core.Option.{Option, none, some}
use splunk_otel_js.Common.Tests.{if◌then◌else◌}
use splunk_otel_js.Common.Equality.{◌===◌, string_eq}
use splunk_otel_js.Common.Texts.{Text}
use splunk_otel_js.Common.Int.{ℤ}

mutual
  pub data Yaml : Type 0 where
    null : Yaml
    boolean : Bool → Yaml
    number : ℤ → Yaml
    text : Text → Yaml
    sequence : Items → Yaml
    mapping : Fields → Yaml

  pub data Items : Type 0 where
    nil : Items
    cons : Yaml → Items → Items

  pub data Fields : Type 0 where
    end : Fields
    field : String → Yaml → Fields → Fields

unfoldable pub find_field : String → Fields → Option Yaml
find_field k end = none
find_field k (field j v fs) = if j === k then some v else find_field k fs

-- `value?.key`; only a mapping has properties.
unfoldable pub property : Option Yaml → String → Option Yaml
unfolding find_field
property (some (mapping fs)) k = find_field k fs
property _ k = none

-- `typeof value === 'object'` of a value that is neither `null` nor `undefined`.
abbrev pub is_object : Option Yaml → Bool
is_object (some (mapping _)) = true
is_object (some (sequence _)) = true
is_object _ = false
