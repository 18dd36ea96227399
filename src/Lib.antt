-- ===== src/Lib.antt =====
-- This library models the Sputnik DAO contracts and proves properties of them. A DAO contract holds
-- a policy of roles, takes proposals with a bond, counts the votes of the roles' members and
-- executes, rejects or expires the proposals; a staking contract reports to it how much weight
-- accounts delegated.
-- Dao models the contract of sputnikdao2/src. Dao/Types and Dao/Data have the data of types.rs,
-- policy.rs, bounties.rs and proposals.rs, Dao/Contract the state of lib.rs and its construction.
-- Dao/Policy/Roles, Dao/Policy/Permissions and Dao/Policy/Status have the functions of policy.rs,
-- Dao/Delegation those of delegation.rs, Dao/Upgrade those of upgrade.rs and the blobs of lib.rs,
-- Dao/Bounties and Dao/Bounties/Methods those of bounties.rs, and Dao/Proposals/Votes,
-- Dao/Proposals/Execution and Dao/Proposals/Methods those of proposals.rs. Each definition has the
-- name of its function; where a function is split, a comment says which part a helper is. Dao/Views
-- has the views of views.rs. Dao/Calls composes the entry points: which of them refuse a deposit
-- and which only the contract itself may call.
-- Host is the host of a contract. A call is a function from the state, with the promises scheduled
-- so far, to a panic or a result with the next state; a panic discards the state and the promises
-- of its call. Promises are values that a call schedules: what they do on other accounts is not
-- modelled, and their results come in through the environment of the callback. The hash of a blob
-- and the order in which a HashMap is visited are fields of the environment.
-- Balances, ids, times and gas are natural numbers, with the overflow checks of the release profile
-- written out: an addition or a multiplication that leaves its width, and a subtraction that falls
-- below zero, panics. Collections of the chain's storage are association lists (Map). A HashSet is
-- a list without repetitions. Every loop is over a list, so only the digits of an id, in Decimal,
-- are written with fuel: 20 steps, as many digits as a 64-bit number can have.
-- The invariants are proved with the rules of Host/Keeps and Host/Ensures, one for each way to
-- build a call. Dao/Frame lists the writes that the internal operations make, and shows that what
-- survives those writes survives the operations. Dao/Invariant states the invariant of the
-- contract, with what is kept of the weights as a parameter; Dao/Invariant/Reachable takes it to
-- runs of calls and Dao/Invariant/Others to calls by other accounts than the staking contract.
-- Dao/Proposals/Unclaimed and Dao/Proposals/Unsettled are about a proposal that reports a bounty
-- done after its claim is gone. Dao/Bonds says what the contract owes of the bonds that it locks,
-- Dao/Bonds/Sums how this changes with the collections, and Dao/Bonds/Spending measures a part of a
-- call: what it takes off the locked amount against what it pays off. Execution and Settling take
-- that measure through a proposal's execution and its settlement. Balances compares what is owed
-- with what is locked; Acting, Methods, Others, Callbacks and Dispatching show that every entry
-- point keeps the comparison. Runs has the contract with the callbacks of its proposals on the way
-- as a step relation, Solvency the invariant, Refunds and Claims what follows for the return of a
-- bond, and Tests has runs. There the policy asks for the same two bonds throughout, and the
-- contract's callback has results of promises only where one of the contract's own promises brought
-- it. Base, Map, Result and Decimal are shared helpers. Dao/Tests has inputs at which the theorems
-- apply.
-- Staking models the staking contract of sputnik-staking/src: Staking/User has the user of user.rs,
-- Staking/Methods the contract of lib.rs with the internal operations of user.rs, and
-- Staking/Storage the storage deposits of storage_impl.rs. Staking/Views has its views, and
-- Staking/Calls composes the entry points with the refusal of a deposit to a method that is not
-- payable. Staking/Sums has sums over users. Staking/Amounts, Staking/Totals, Staking/Users and
-- Staking/Refunds have the theorems on amounts, on one user and on the refunds of storage deposits;
-- Staking/Tests has inputs at which the theorems apply.
-- Factory models the factory of sputnikdao-factory2/src: Factory/Data has its state,
-- Factory/Manager the store of codes of factory_manager.rs, Factory/Methods the methods of lib.rs
-- and Factory/Calls the entry points. The code that is built into the factory, which texts are
-- account ids and by how much a stored code makes the storage grow are arguments.
-- Factory/Consistency says when a factory is consistent; Factory/Invariant, Factory/Owner,
-- Factory/Creation and Factory/Outcome have its theorems.
-- System puts the contracts together: System/Upgrades reads what the factory schedules as calls of
-- the exported functions of a DAO, by their names, and runs them. Dao/Delegation/Ledger is the
-- contract between the DAO and its staking contract: a ledger of weights and three messages.
-- System/Weights runs the two together: Sending and Receipts read the promises of the staking
-- contract as messages, Changes, Matching and Following say what each change of the users asks of
-- the ledger, States has the states and the steps between them, and Delivery the theorems. There
-- the messages arrive in the order in which they were sent, no user unregisters, and the DAO has
-- the staking contract and no weights from the start; between the messages other accounts call the
-- DAO as they like. A byte of storage has one cost throughout.
-- Not modelled: the balance of an account and the gas that a promise uses, so that a scheduled
-- transfer never fails for want of them where NEAR would panic; the version of
-- sputnikdao2/src/views.rs, migrate of sputnikdao2/src/lib.rs, which returns the state as it is,
-- its view get_factory_info, which returns what internal_get_factory_info finds, the order in which
-- an UnorderedMap lists its entries, the logs, the serialization of the state, and the tokens of
-- test-token, which only calls near_contract_standards.
pub mod Base
pub mod Decimal
pub mod Map
pub mod Result
pub mod Host
pub mod Dao
pub mod Staking
pub mod Factory
pub mod System
