-- ===== src/Publishers/Dispatch.antt =====
-- `dispatch` of adapters/adapter_publishers.hpp against a description of what a publisher is to get
-- in a cycle: of the offers of its channels, in order, the first wanted one for each ID.
pub mod Offers
pub mod Firsts
pub mod Cycle
