-- ===== src/Container.antt =====
-- libvfuzz-core/src/container: inputs, clusters of inputs and corpora.
pub mod Input
pub mod InputCluster
pub mod Corpus
