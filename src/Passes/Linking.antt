-- ===== src/Passes/Linking.antt =====
-- getBitcodePath, validateAMDGPUTarget and loadAndLinkBitcode of
-- src/instrumentation/InstrumentationCommon.cpp.
use omniprobe.Prelude.{
  ◌||◌, Bool, true, false, List, [], ◌∷◌, ◌++◌, Option, none, some, Bytes, codes, text_eq,
  if◌then◌else◌,
}
use omniprobe.Interceptor.Names.{split_last, rfind}
use omniprobe.Passes.{Instruction, IrModule, Function, Toolchain}

-- The loop over the functions: the first target-cpu attribute.
unfoldable pub first_target_cpu : List (Function Instruction) → Bytes
first_target_cpu [] = []
first_target_cpu (f ∷ rest) = elim (f.target_cpu) [ none ↦ first_target_cpu rest | some cpu ↦ cpu ]

unfoldable pub architecture : IrModule Instruction → Bytes
architecture m = elim (m.target_cpu) [ none ↦ first_target_cpu m.functions | some cpu ↦ cpu ]

-- `CDNAVersion`. An architecture that is not known counts as "unknown".
unfoldable pub cdna_version : Bytes → Bytes
cdna_version arch =
    if text_eq arch (codes "gfx940")
      || (text_eq arch (codes "gfx941") || text_eq arch (codes "gfx942"))
    then codes "_cdna3"
    else codes "_cdna2"

abbrev code_object_version : Option (Bytes × Bytes) → Bytes
code_object_version none = codes "_co6"
code_object_version (some found) = codes "_co5"

unfoldable pub get_bitcode_path : Toolchain → IrModule Instruction → Bytes
unfolding architecture cdna_version first_target_cpu
get_bitcode_path tools m = elim (tools.plugin_path) [
  | none ↦ []
  | some path ↦ elim (split_last b'/' path) [
    | none ↦ []
    | some ([], name) ↦ []
    | some (c ∷ dir, name) ↦
        let sibling = (c ∷ dir) ++ codes "/../bitcode" in
        (if tools.is_directory sibling then sibling else c ∷ dir)
        ++ (codes "/dh_comms_dev"
            ++ (cdna_version (architecture m)
                ++ (code_object_version (rfind (codes "triton") path) ++ codes ".bc")))
  ]
]

unfoldable pub validate_amdgpu_target : IrModule Instruction → Bool
validate_amdgpu_target m = text_eq m.target_triple (codes "amdgcn-amd-amdhsa")

-- The module as it is afterwards, and whether the device module was linked into it.
unfoldable pub load_and_link_bitcode :
    Toolchain → IrModule Instruction → IrModule Instruction × Bool
unfolding get_bitcode_path
load_and_link_bitcode tools m =
    let path = get_bitcode_path tools m in
    if tools.exists path
    then elim (tools.get_file path) [
      | none ↦ (m, false)
      | some bytes ↦ elim (tools.parse_bitcode_file bytes) [
        | none ↦ (m, false)
        | some device ↦
            let linked = tools.link_modules m device in (linked.0, if linked.1 then false else true)
      ]
    ]
    else (m, false)
