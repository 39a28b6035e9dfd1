-- ===== src/Lib.antt =====
-- TruthTable: proofs of SQL queries over committed tables.
--
-- The program plans a query with DataFusion, turns the plan into a tree of nodes, serialises the
-- plan for the verifier, and runs a prover and a verifier over the tree, whose gadgets add claims on
-- polynomials over a prime field. Modelled here:
--   Common       names, lists, results and integers that the other files share
--   Datafusion   the types of DataFusion and Arrow that the program takes apart, with each field
--                that it reads; what it only passes on is a field of the record Host, and what it
--                calls is a field of the record Library
--   Field        the prime field, a parameter with the laws of arithmetic modulo its characteristic;
--                Field/Modular.antt shows that the laws can be met
--   Codec        crates/tt-core/src/irs/codec.rs: the repr types, Encode.antt for the `from_*`
--                functions and Decode.antt for the `to_*` functions; Detached.antt says which plan a
--                serialised plan stands for
--   Sign         crates/tt-core/src/irs/nodes/utils/sign/mod.rs: Config.antt the configuration,
--                Chunks.antt the splits and the recomposition, Decode.antt the reading of field
--                elements, Column.antt columns and claims, Protocol.antt `prove` and `verify`,
--                HonestCheck.antt `honest_prover_check`, Node.antt the gadget at its payload
--   KeyedSumcheck  the honest prover's check of crates/tt-col-toolbox/src/keyed_sumcheck:
--                Bookkeeping.antt the map of counts, Counts.antt the occurrences of an
--                element, Balance.antt what the check decides
--   Planner      rules of crates/tt-proof-planner/src/lp_optimizer: MergeLimits.antt, Filters.antt,
--                SortFetch.antt, each with a Rows.antt that says what is assumed of a plan's rows
--   Ir           crates/tt-core/src/irs: Nodes.antt the nodes, Tree.antt the arena (tree.rs), Passes.antt
--                payload maps and the two ways to run a pass (ir.rs), GadgetPasses.antt the passes that
--                run gadgets (crates/tt-core/src/prover/passes, crates/tt-core/src/verifier/passes)
--                (PayloadPasses.antt: those in which nodes write payloads); JoinModes.antt the modes of
--                joins that are serialised beside a plan (codec.rs)
--   Encoding     crates/tt-arithmetic/src/encoding.rs: Columns.antt rows into columns, Bytes.antt the hash
--                of bytes, Arrays.antt the encoders by data type
--   Join         which joins are specialised (crates/tt-core/src/irs/nodes/plan/lps/join/modes.rs):
--                Text.antt names of tables, Constraints.antt keys (hints.rs, utils/nodup/mod.rs of
--                crates/tt-core/src/irs/nodes, and crates/tt-core/src/prover/passes/materialization.rs,
--                which puts them on the schemas of tables), Modes.antt and Decide.antt the decision
--   Inclusion    the multiplicities of the lookup argument (crates/tt-col-toolbox/src/lookup/utils.rs,
--                crates/tt-col-toolbox/src/util/multiplicity_count.rs)
--   Table        crates/tt-arithmetic/src/table.rs, table_oracle.rs: tracked tables; Fold.antt their folds
--   Gadgets      gadgets of crates/tt-core/src/irs/nodes/utils: Boolean (bool), Equality (eq, neq), Compare
--                (leq, geq), Strict (the child of sign); what their verifiers claim is read as statements of
--                all rows (Claims.antt). BinCmp, Operands and BinEq are the comparisons as
--                expressions (bin_cmp, bin_eq and bin_neq of
--                crates/tt-core/src/irs/nodes/plan/exprs/binary_expr/gadget)
--   Tests        runs of the theorems at concrete inputs
--
-- The model. Plans, expressions and their reprs are mutual data types, since they hold lists of
-- themselves. A polynomial is its evaluations, a function of the row; a commitment is the polynomial
-- it binds, and a proof is the list of commitments that the verifier reads in order. A claim is a
-- value, `Holds` says what it states of the rows, and how the proof system establishes it is not
-- modelled. A tracked polynomial of the prover and a tracked oracle of the verifier are the same
-- function, so one definition stands for both. Bits are quotients and remainders by powers of two.
-- Challenges are a function of their position. Which polynomials are known to be constant is a
-- parameter (Constants of Gadgets.antt), and so is the equality of fields and of data types. Each
-- column has a data type; the sign gadget, in the source, panics on one without. Debug
-- assertions are left out, so that what they demand is a hypothesis where a theorem needs it.
-- Recursion is structural, so no fuel is needed but in Field/Modular.antt, where `limbs_of` has the
-- number itself as its fuel, and in Encoding/Bytes.antt, where `chunks` has one unit for each byte, each
-- round taking one byte at least.
--
-- Not modelled: the bytes of the serialisation, debug output and tracing, the proof system's own
-- protocols, DataFusion's rules, the command line, the benchmarks and the generated data.
pub mod Common
pub mod Datafusion
pub mod Field
pub mod Sign
pub mod Ir
pub mod Encoding
pub mod Join
pub mod Table
pub mod Gadgets
pub mod Inclusion
pub mod Planner
pub mod KeyedSumcheck
pub mod Tests
pub mod Codec
