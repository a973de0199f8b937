-- ===== src/Settings/Load.antt =====
-- _dict_to_config and load_config of config.py.
use grbl_proxy.Prelude.{
  ◌==◌, ◌≡◌, refl, ap, ◌∙◌, Bool, true, false, not, ◌&&◌, ◌||◌, Option, none, some, is_some, pos,
  negsuc, if◌then◌else◌,
}
use grbl_proxy.Text.{Text, codes, is_empty}
use grbl_proxy.Settings.{
  Yaml, null, boolean, integer, float, string, sequence, mapping, end, item, Entries, empty, entry,
  get, Config, serial_config, tcp_config, web_config, auto_detect_config, job_config,
  machine_config, webcam_config,
}

infixl 5 ◌>>=◌
abbrev ◌>>=◌ {ℓ κ} : {A : Type ℓ} {B : Type κ} → Option A → (A → Option B) → Option B
none >>= f = none
some a >>= f = f a

-- the mapping of a section, or the AttributeError of anything else
abbrev pub section_of : Option Yaml → Option Entries
section_of none = some empty
section_of (some (mapping e)) = some e
section_of (some _) = none

unfoldable pub section : Text → Entries → Option Entries
unfolding get
section key d = section_of (get key d)

-- _dict_to_config
unfoldable pub dict_to_config : Entries → Option Config
unfolding section
dict_to_config data_ = do
  job_data ← section (codes "job") data_
  auto_detect_data ← section (codes "auto_detect") job_data
  serial_data ← section (codes "serial") data_
  tcp_data ← section (codes "tcp") data_
  web_data ← section (codes "web") data_
  machine_data ← section (codes "machine") data_
  webcam_data ← section (codes "webcam") data_
  some (record {
    serial = serial_config serial_data;
    tcp = tcp_config tcp_data;
    web = web_config web_data;
    job = job_config (auto_detect_config auto_detect_data) job_data;
    machine = machine_config machine_data;
    webcam = webcam_config webcam_data;
  })

-- bool(value)
unfoldable pub is_truthy : Yaml → Bool
is_truthy null = false
is_truthy (boolean b) = b
is_truthy (integer (pos n)) = not (n == 0)
is_truthy (integer (negsuc n)) = true
is_truthy (float d) = not (d.mantissa == 0)
is_truthy (string s) = not (is_empty s)
is_truthy (sequence end) = false
is_truthy (sequence (item _ _)) = true
is_truthy (mapping empty) = false
is_truthy (mapping (entry _ _ _)) = true

-- How loading ends: with settings, a ValueError, or another exception.
pub data Loaded : Type 0 where
  configured : Config → Loaded
  value_error : Loaded
  crashed : Loaded

abbrev loaded_from : Option Config → Loaded
loaded_from none = crashed
loaded_from (some c) = configured c

abbrev from_yaml : Yaml → Loaded
from_yaml (mapping d) = loaded_from (dict_to_config d)
from_yaml _ = crashed

abbrev parsed : Option Yaml → Loaded
parsed none = value_error
parsed (some y) = from_yaml (if is_truthy y then y else mapping empty)

module _ (safe_load : Text → Option Yaml) where
  -- load_config, with whether the file can be read, and its text if it exists
  unfoldable pub load_config : Bool → Option Text → Loaded
  unfolding dict_to_config is_truthy
  load_config readable none = loaded_from (dict_to_config empty)
  load_config readable (some text) = if readable then parsed (safe_load text) else value_error

-- An independent description: a section is missing, or it is a mapping.
abbrev is_section : Option Yaml → Bool
is_section none = true
is_section (some (mapping e)) = true
is_section (some _) = false

abbrev job_section : Option Yaml → Bool
job_section none = true
job_section (some (mapping e)) = is_section (get (codes "auto_detect") e)
job_section (some _) = false

abbrev pub has_sections : Yaml → Bool
has_sections (mapping d) =
    job_section (get (codes "job") d)
    && (is_section (get (codes "serial") d)
        && (is_section (get (codes "tcp") d)
            && (is_section (get (codes "web") d)
                && (is_section (get (codes "machine") d)
                    && (is_section (get (codes "webcam") d) && true)))))
has_sections _ = false

abbrev pub is_configured : Loaded → Bool
is_configured (configured c) = true
is_configured _ = false

abbrev pub is_crashed : Loaded → Bool
is_crashed crashed = true
is_crashed _ = false

bind_section {ℓ} :
    {B : Type ℓ} (o : Option Yaml) (f : Entries → Option B) (b : Bool)
    → ((e : Entries) → is_some (f e) ≡ b)
    → is_some (section_of o >>= f) ≡ (is_section o && b)
bind_section none f b h = h empty
bind_section (some (mapping e)) f b h = h e
bind_section (some _) f b h = refl

bind_job {ℓ} :
    {B : Type ℓ} (o : Option Yaml) (f : Entries → Entries → Option B) (b : Bool)
    → ((j e : Entries) → is_some (f j e) ≡ b)
    → is_some (section_of o >>= (λ j. section_of (get (codes "auto_detect") j) >>= f j))
      ≡ (job_section o && b)
unfolding get
bind_job none f b h = h empty empty
bind_job (some (mapping j)) f b h = bind_section (get (codes "auto_detect") j) (f j) b (h j)
bind_job (some _) f b h = refl

dict_to_config_some : (d : Entries) → is_some (dict_to_config d) ≡ has_sections (mapping d)
unfolding dict_to_config
dict_to_config_some d = bind_job (get (codes "job") d) _ _ (λ j a.
    bind_section (get (codes "serial") d) _ _ (λ s. bind_section (get (codes "tcp") d) _ _ (λ t.
      bind_section (get (codes "web") d) _ _ (λ w.
        bind_section (get (codes "machine") d) _ _
          (λ m. bind_section (get (codes "webcam") d) _ true (λ c. refl))))))

loaded_from_some :
    (o : Option Config)
    → (is_configured (loaded_from o) ≡ is_some o) × (is_crashed (loaded_from o) ≡ not (is_some o))
loaded_from_some none = (refl, refl)
loaded_from_some (some c) = (refl, refl)

from_yaml_sections :
    (y : Yaml)
    → (is_configured (from_yaml y) ≡ has_sections y)
      × (is_crashed (from_yaml y) ≡ not (has_sections y))
from_yaml_sections (mapping d) =
    let ends = loaded_from_some (dict_to_config d) in
    (ends.0 ∙ dict_to_config_some d, ends.1 ∙ ap not (dict_to_config_some d))
from_yaml_sections _ = (refl, refl)

-- What loading a value that is false and a value that is true comes to.
by_truth :
    (b : Bool) (y : Yaml)
    → (is_configured (from_yaml (if b then y else mapping empty)) ≡ (not b || has_sections y))
      × (is_crashed (from_yaml (if b then y else mapping empty)) ≡ not (not b || has_sections y))
unfolding dict_to_config get
by_truth true y = from_yaml_sections y
by_truth false y = (refl, refl)

-- Which files the program starts with: a configuration file that can be read and parsed gives settings
-- exactly if its value is empty, or it is a mapping in which each of the six sections, and
-- `auto_detect` in the section `job`, is missing or is itself a mapping; in every other case, an
-- empty section among them, loading ends in an exception that is not a ValueError.
pub loads_iff_sections :
    (safe_load : Text → Option Yaml) (text : Text) (y : Yaml)
    → safe_load text ≡ some y
    → (is_configured (load_config safe_load true (some text))
        ≡ (not (is_truthy y) || has_sections y))
      × (is_crashed (load_config safe_load true (some text))
          ≡ not (not (is_truthy y) || has_sections y))
unfolding load_config
loads_iff_sections safe_load text y h =
    let ends = by_truth (is_truthy y) y in
    (ap (λ o. is_configured (parsed o)) h ∙ ends.0, ap (λ o. is_crashed (parsed o)) h ∙ ends.1)
