-- ===== src/Arm/Discover.antt =====
-- symex/src/general_assembly/arch/discover.rs, `arm_isa` of arch/arm.rs and the `discover` of
-- arch/arm/v6.rs and v7.rs: the architecture that an object file is for. The `object` crate reads
-- the file; what the code asks it is kept in a record.
use symex.Common.{
  ℕ, ◌-◌, ◌*◌, ◌≡◌, refl, Bool, ◌∙◌, arith, get_elem?, true, false, ◌||◌, List, Option, none, some,
  ◌==◌, if◌then◌else◌, Outcome, ok, err, panic, ◌>>=◌,
}
use symex.Errors.{
  ArchError, unsupported_architecture, incorrect_file_type, malformed_section, missing_section,
}

-- The section ".ARM.attributes" may be missing, and its bytes may be unreadable.
pub record ObjectFile : Type 0 where
  pub is_arm : Bool
  pub is_elf32 : Bool
  pub attributes : Option (Option (List ℕ))

pub data ArmIsa : Type 0 where
  arm_v6m arm_v7em : ArmIsa

pub data SupportedArchitechture : Type 0 where
  armv7em armv6m : SupportedArchitechture

unfoldable pub isa_of : Option ℕ → Outcome ArchError ArmIsa
isa_of none = err malformed_section
isa_of (some f_cpu_arch) =
    if f_cpu_arch == 10
    then ok arm_v7em
    else if f_cpu_arch == 12
    then ok arm_v6m
    else if f_cpu_arch == 13
    then ok arm_v7em
    else err unsupported_architecture

unfoldable pub arm_isa : Option (List ℕ) → Outcome ArchError ArmIsa
unfolding isa_of
arm_isa none = err malformed_section
arm_isa (some data_bytes) = isa_of (get_elem? data_bytes (6 * 4 - 1))

-- The steps that both `discover` have in common.
unfoldable pub isa_of_file : ObjectFile → Outcome ArchError ArmIsa
unfolding arm_isa
isa_of_file file =
    if file.is_elf32
    then elim file.attributes [
      | some section ↦ arm_isa section
      | none ↦ err (missing_section ".ARM.attributes")
    ]
    else err incorrect_file_type

unfoldable pub discover_v7 : ObjectFile → Outcome ArchError Bool
unfolding isa_of_file
discover_v7 file = do isa ← isa_of_file file; elim isa [ arm_v6m ↦ ok false | arm_v7em ↦ ok true ]

unfoldable pub discover_v6 : ObjectFile → Outcome ArchError Bool
unfolding isa_of_file
discover_v6 file = do isa ← isa_of_file file; elim isa [ arm_v6m ↦ ok true | arm_v7em ↦ ok false ]

unfoldable pub discover : ObjectFile → Outcome ArchError SupportedArchitechture
unfolding discover_v7 discover_v6
discover file =
    if file.is_arm
    then (do
      v7 ← discover_v7 file
      if v7
          then ok armv7em
          else (discover_v6 file >>= λ v6. if v6 then ok armv6m else err unsupported_architecture))
    else err unsupported_architecture

-- The architecture that the byte for the processor stands for.
unfoldable pub processor_of : Option ℕ → Outcome ArchError SupportedArchitechture
processor_of none = err malformed_section
processor_of (some f_cpu_arch) =
    if f_cpu_arch == 12
    then ok armv6m
    else if (f_cpu_arch == 10) || (f_cpu_arch == 13)
    then ok armv7em
    else err unsupported_architecture

-- The architecture of a file, or the error, by the kind of the file and the byte of its attributes
-- that names the processor.
unfoldable pub architecture_of :
    Bool → Bool → Option (Option (List ℕ)) → Outcome ArchError SupportedArchitechture
unfolding processor_of
architecture_of false is_elf32 attributes = err unsupported_architecture
architecture_of true false attributes = err incorrect_file_type
architecture_of true true none = err (missing_section ".ARM.attributes")
architecture_of true true (some none) = err malformed_section
architecture_of true true (some (some data_bytes)) = processor_of (get_elem? data_bytes 23)

-- The two searches together.
unfoldable supported : Outcome ArchError ArmIsa → Outcome ArchError SupportedArchitechture
supported (ok arm_v7em) = ok armv7em
supported (ok arm_v6m) = ok armv6m
supported (err e) = err e
supported panic = panic

discover-supported :
    (file : ObjectFile)
    → discover file
      ≡ (if file.is_arm then supported (isa_of_file file) else err unsupported_architecture)
unfolding discover discover_v7 discover_v6 supported
discover-supported file = searched (isa_of_file file)
  where
    searched :
        (r : Outcome ArchError ArmIsa)
        → (if file.is_arm
            then (r >>= (λ isa. elim isa [ arm_v6m ↦ ok false | arm_v7em ↦ ok true ]) >>= λ v7.
                if v7
                then ok armv7em
                else (r >>= (λ isa. elim isa [ arm_v6m ↦ ok true | arm_v7em ↦ ok false ]) >>= λ v6.
                    if v6 then ok armv6m else err unsupported_architecture))
            else err unsupported_architecture)
          ≡ (if file.is_arm then supported r else err unsupported_architecture)
    searched (ok arm_v7em) = refl
    searched (ok arm_v6m) = refl
    searched (err e) = refl
    searched panic = refl

supported-isa_of : (byte : Option ℕ) → supported (isa_of byte) ≡ processor_of byte
unfolding supported isa_of processor_of
supported-isa_of none = refl
supported-isa_of (some f_cpu_arch) = ground arith

supported-cases :
    (is_arm is_elf32 : Bool) (attributes : Option (Option (List ℕ)))
    → (if is_arm
        then supported
            (isa_of_file (record { is_arm = is_arm; is_elf32 = is_elf32; attributes = attributes }))
        else err unsupported_architecture)
      ≡ architecture_of is_arm is_elf32 attributes
unfolding supported isa_of_file arm_isa architecture_of
supported-cases false e a = refl
supported-cases true false a = refl
supported-cases true true none = refl
supported-cases true true (some none) = refl
supported-cases true true (some (some data_bytes)) = supported-isa_of (get_elem? data_bytes 23)

-- The search finds the architecture that the file is for, or the error that it has.
pub discover-architecture_of :
    (file : ObjectFile) → discover file ≡ architecture_of file.is_arm file.is_elf32 file.attributes
discover-architecture_of file =
    discover-supported file ∙ supported-cases file.is_arm file.is_elf32 file.attributes
